-- ===== src/Session/Writes.antt =====
-- The write queue of src/session_base.cpp under every interleaving of `write` and the completions of
-- `async_write`. Each holds `mutex_`, so they are the steps.
use bserver.Base.{
  ◌≤◌, ◌≡◌, refl, Bool, true, false, List, [], ◌∷◌, ◌++◌, map, append_assoc, Bytes, length, arith,
}
use bserver.Message.{Head, MessageFormat}
use bserver.Session.{Session, new_session, wire, write, handle_write}
use mathlib.Core.List.{map-append, tail}

-- A session with the bytes that its completed writes sent, the messages that were given to `write`,
-- and whether a write has failed.
pub record Link : Type 0 where
  pub session : Session
  pub sent : List Bytes
  pub submitted : List MessageFormat
  pub broken : Bool

abbrev pub new_link : Head → Link
new_link junk = record { session = new_session junk; sent = []; submitted = []; broken = false }

-- `b` is the buffer whose completion is seen, `rest` are the others that are outstanding.
pub data Step (l : Link) : Link → Type 0 where
  writes :
      (m : MessageFormat)
      → Step l (record l { session = write m l.session; submitted = l.submitted ++ (m ∷ []) })
  wrote :
      (b : Bytes) (rest : List Bytes)
      → l.session.writing ≡ b ∷ rest
      → Step l (record l {
        session = (handle_write false (record l.session { writing = rest })).0;
        sent = l.sent ++ (b ∷ []);
      })
  write_fails :
      (b : Bytes) (rest : List Bytes)
      → l.session.writing ≡ b ∷ rest
      → Step l (record l {
        session = (handle_write true (record l.session { writing = rest })).0;
        broken = true;
      })

pub data Reach (l : Link) : Link → Type 0 where
  here : Reach l l
  next : {a b : Link} → Reach l a → Step a b → Reach l b

-- What `async_write` holds while the queue is `ms`.
abbrev outstanding : Bool → List MessageFormat → List Bytes
outstanding true ms = []
outstanding false [] = []
outstanding false (m ∷ ms) = wire m ∷ []

abbrev is_locked : Bool → List MessageFormat → Bool
is_locked true ms = true
is_locked false [] = false
is_locked false (m ∷ ms) = true

pub record Inv (l : Link) : Type 0 where
  pub one_write : l.session.writing ≡ outstanding l.broken l.session.write_msgs
  pub lock : l.session.inter_lock ≡ is_locked l.broken l.session.write_msgs
  pub in_order : l.sent ++ map wire l.session.write_msgs ≡ map wire l.submitted

pub new_link-Inv : (junk : Head) → Inv (new_link junk)
unfolding new_session
new_link-Inv junk = record { one_write = refl; lock = refl; in_order = refl }

map-snoc :
    (ms : List MessageFormat) (m : MessageFormat)
    → map wire (ms ++ (m ∷ [])) ≡ map wire ms ++ (wire m ∷ [])
map-snoc ms m = map-append wire ms (m ∷ [])

write-Inv :
    (l : Link) (m : MessageFormat)
    → Inv l
    → Inv (record l { session = write m l.session; submitted = l.submitted ++ (m ∷ []) })
unfolding write
write-Inv l m v = record {
  one_write = ground arith;
  lock = ground arith;
  in_order = ground (
    arith,
    map-snoc l.session.write_msgs m,
    map-snoc l.submitted m,
    append_assoc l.sent (map wire l.session.write_msgs) (wire m ∷ []),
  );
}

wrote-Inv :
    (l : Link) (b : Bytes) (rest : List Bytes)
    → l.session.writing ≡ b ∷ rest
    → Inv l
    → Inv (record l {
      session = (handle_write false (record l.session { writing = rest })).0;
      sent = l.sent ++ (b ∷ []);
    })
unfolding handle_write
wrote-Inv l b rest e v = record {
  one_write = ground arith;
  lock = ground arith;
  in_order = ground (arith, append_assoc l.sent (b ∷ []) (map wire (tail l.session.write_msgs)));
}

fails-Inv :
    (l : Link) (b : Bytes) (rest : List Bytes)
    → l.session.writing ≡ b ∷ rest
    → Inv l
    → Inv (record l {
      session = (handle_write true (record l.session { writing = rest })).0;
      broken = true;
    })
unfolding handle_write
fails-Inv l b rest e v = record {
  one_write = ground arith;
  lock = ground arith;
  in_order = ground arith;
}

Step-Inv : {a b : Link} → Step a b → Inv a → Inv b
Step-Inv {a} (writes m) v = write-Inv a m v
Step-Inv {a} (wrote b rest e) v = wrote-Inv a b rest e v
Step-Inv {a} (write_fails b rest e) v = fails-Inv a b rest e v

pub Reach-Inv : {a b : Link} → Inv a → Reach a b → Inv b
Reach-Inv v here = v
Reach-Inv v (next r st) = Step-Inv st (Reach-Inv v r)

-- In every state that a new session reaches, also after a failed write: at most one write is
-- outstanding, and what was sent, followed by the queue, is what was submitted, in that order.
pub writes_in_order :
    (junk : Head) (l : Link)
    → Reach (new_link junk) l
    → (l.sent ++ map wire l.session.write_msgs ≡ map wire l.submitted)
      × (length l.session.writing ≤ 1)
writes_in_order junk l r =
    let v = Reach-Inv (new_link-Inv junk) r in (v.in_order, ground (arith, v.one_write))
