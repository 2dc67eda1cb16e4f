-- ===== src/Session/Stall.antt =====
-- When the queue of src/session_base.cpp moves on: always while no write has failed, never after.
use bserver.Base.{◌≡◌, refl, ◌∙◌, true, false, List, [], ◌∷◌, ◌++◌, map, append-nil, arith}
use bserver.Message.{Head, MessageFormat}
use bserver.Session.{wire, handle_write}
use bserver.Session.Writes.{
  Link, new_link, Step, writes, wrote, write_fails, Reach, here, next, Inv, new_link-Inv, Reach-Inv,
}

Reach-trans : {a b c : Link} → Reach a b → Reach b c → Reach a c
Reach-trans r here = r
Reach-trans r (next s st) = next (Reach-trans r s) st

-- A session no write of which has failed can empty its queue by completions alone, and has then
-- sent every message that was submitted.
record Drained (l d : Link) : Type 0 where
  pub path : Reach l d
  pub emptied : d.session.write_msgs ≡ []
  pub kept : d.submitted ≡ l.submitted

after_one : Link → MessageFormat → Link
after_one l m = record l {
  session = (handle_write false (record l.session { writing = [] })).0;
  sent = l.sent ++ (wire m ∷ []);
}

drain_from :
    (ms : List MessageFormat) (l : Link)
    → l.session.write_msgs ≡ ms
    → l.broken ≡ false
    → Inv l
    → (d : Link) × Drained l d
drain_from [] l e f v = (l, record { path = here; emptied = e; kept = refl })
drain_from (m ∷ ms) l e f v =
    let st : Step l (after_one l m) =
      unfold after_one in wrote (wire m) [] (ground (arith, v.one_write)) in
    let (d, r) =
      drain_from ms (after_one l m) (unfold after_one handle_write in ground arith)
        (unfold after_one in f) (Reach-Inv v (next here st)) in
    (
      d,
      record {
        path = Reach-trans (next here st) r.path;
        emptied = r.emptied;
        kept = r.kept ∙ (unfold after_one in refl);
      },
    )

-- As long as no write has failed, completions alone empty the queue, and then all that was submitted
-- has been sent, in order.
pub queue_drains :
    (junk : Head) (l : Link)
    → Reach (new_link junk) l
    → l.broken ≡ false
    → (d : Link) × Reach l d × (d.session.write_msgs ≡ []) × (d.sent ≡ map wire l.submitted)
queue_drains junk l r f =
    let v = Reach-Inv (new_link-Inv junk) r in
    let (d, s) = drain_from l.session.write_msgs l refl f v in
    (
      d,
      s.path,
      s.emptied,
      ground (arith, (Reach-Inv v s.path).in_order, append-nil d.sent, s.emptied, s.kept),
    )

stays_broken :
    {a b : Link} → Inv a → a.broken ≡ true → Reach a b → (b.broken ≡ true) × (b.sent ≡ a.sent)
stays_broken v f here = (f, refl)
stays_broken v f (next r (writes m)) = stays_broken v f r
stays_broken v f (next {a = c} r (wrote b rest e)) =
    let w = Reach-Inv v r in let h = stays_broken v f r in ground (arith, w.one_write, h.0)
stays_broken v f (next r (write_fails b rest e)) = (refl, (stays_broken v f r).1)

-- After a failed write the session takes messages and sends nothing more.
pub failed_write_stalls :
    (junk : Head) (a b : Link)
    → Reach (new_link junk) a
    → a.broken ≡ true
    → Reach a b
    → (b.sent ≡ a.sent) × (b.session.writing ≡ [])
failed_write_stalls junk a b r f s =
    let v = Reach-Inv (new_link-Inv junk) r in
    let h = stays_broken v f s in (h.1, ground (arith, (Reach-Inv v s).one_write, h.0))
