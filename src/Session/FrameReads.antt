-- ===== src/Session/FrameReads.antt =====
-- The reads of one frame in src/session_base.cpp, of its header and then of its body.
use bserver.Base.{
  ℕ, suc, ◌+◌, ◌≤◌, ◌≡◌, ◌≢◌, refl, ap, ◌∙◌, true, List, [], ◌∷◌, ◌++◌, Bytes, some, length, take,
  drop, take-append, drop-append, length-append, leb, arith,
}
use bserver.Message.{
  Head, MessageFormat, done, message_head_length, max_body_length, resize, fill_body,
}
use bserver.Message.Frame.{IsHead, header_bytes, length-header_bytes, decode-header_bytes}
use bserver.Session.{
  Session, Waiting, for_head, for_body, no_read, Effect, handle_read_header, handle_read_body,
  after_head, after_body_get, do_head,
}
use bserver.Session.Reads.{complete_read, feed}

abbrev pub IsFrame : Head × Bytes → Type 0
IsFrame (h, body) = IsHead h × (length body ≤ max_body_length)

-- `read_msg_` between the two reads of a frame.
unfoldable pub half_read : Session → Head → Bytes → MessageFormat
half_read s h body = record s.read_msg {
  head = header_bytes h body;
  body = resize (message_head_length + length body) s.read_msg.body;
  body_length = length body;
  magic = h.magic;
  len = message_head_length + length body;
  cmd = h.cmd;
}

unfoldable pub whole_read : Session → Head → Bytes → Session
unfolding half_read
whole_read s h body = record s {
  reading = for_head;
  read_msg = fill_body body (half_read s h body);
}

pub take-length_of : (n : ℕ) (xs ys : Bytes) → length xs ≡ n → take n (xs ++ ys) ≡ xs
take-length_of n xs ys e = rw (← e) (take-append xs ys)

pub drop-length_of : (n : ℕ) (xs ys : Bytes) → length xs ≡ n → drop n (xs ++ ys) ≡ ys
drop-length_of n xs ys e = rw (← e) (drop-append xs ys)

leb-length : (n : ℕ) (xs ys : Bytes) → length xs ≡ n → leb n (length (xs ++ ys)) ≡ true
leb-length n xs ys e = ground (arith, length-append xs ys)

module _ (s : Session) (h : Head) (body more : Bytes) (w : IsHead h)
    (fits : length body ≤ max_body_length) where
  header-read :
      complete_read for_head s (header_bytes h body ++ more)
      ≡ some (after_head done (record s { reading = no_read; read_msg = half_read s h body }), more)
  unfolding complete_read half_read handle_read_header do_head
  header-read =
      let e = length-header_bytes h body in
      rw (
        leb-length 12 (header_bytes h body) more e,
        take-length_of 12 (header_bytes h body) more e,
        drop-length_of 12 (header_bytes h body) more e,
        decode-header_bytes h body w fits s.read_msg,
      )

  body-read :
      (n : ℕ) (r : Waiting)
      → length body ≡ n
      → complete_read
          (for_body n)
          (record s { reading = r; read_msg = half_read s h body })
          (body ++ more)
        ≡ some ((whole_read s h body, after_body_get (whole_read s h body).read_msg), more)
  unfolding complete_read whole_read handle_read_body after_body_get
  body-read n r e =
      rw (leb-length n body more e, take-length_of n body more e, drop-length_of n body more e)

abbrev pub prepend : List Effect → Session × Bytes × List Effect → Session × Bytes × List Effect
prepend es (t, rest, fs) = (t, rest, es ++ fs)

feed-step :
    (f : ℕ) (s : Session) (bs : Bytes) (t : Session) (es : List Effect) (more : Bytes)
    → complete_read s.reading s bs ≡ some ((t, es), more)
    → feed (suc f) s bs ≡ prepend es (feed f t more)
unfolding feed
feed-step f s bs t es more e = rw (e, feed)

module _ (s : Session) (h : Head) (body more : Bytes) (w : IsHead h)
    (fits : length body ≤ max_body_length) (idle : s.reading ≡ for_head) where
  frame_effects : List Effect
  frame_effects = after_body_get (whole_read s h body).read_msg

  first_read :
      complete_read s.reading s (header_bytes h body ++ (body ++ more))
      ≡ some (
        after_head done (record s { reading = no_read; read_msg = half_read s h body }),
        body ++ more,
      )
  first_read =
      ap (λ r. complete_read r s (header_bytes h body ++ (body ++ more))) idle
      ∙ header-read s h body (body ++ more) w fits

  after_head-empty :
      body ≡ []
      → after_head done (record s { reading = no_read; read_msg = half_read s h body })
        ≡ (whole_read s h body, frame_effects)
  unfolding frame_effects whole_read half_read fill_body after_head handle_read_body after_body_get
  after_head-empty e = rw e

  after_head-full :
      body ≢ []
      → after_head done (record s { reading = no_read; read_msg = half_read s h body })
        ≡ (record s { reading = for_body (length body); read_msg = half_read s h body }, [])
  unfolding half_read after_head
  after_head-full e = ground arith

  feed-empty_frame :
      (f : ℕ)
      → body ≡ []
      → feed (suc f) s (header_bytes h body ++ (body ++ more))
        ≡ prepend frame_effects (feed f (whole_read s h body) more)
  feed-empty_frame f e = feed-step f s _ _ _ _ (first_read ∙ cc (after_head-empty e, e))

  feed-full_frame :
      (f : ℕ)
      → body ≢ []
      → feed (suc (suc f)) s (header_bytes h body ++ (body ++ more))
        ≡ prepend frame_effects (feed f (whole_read s h body) more)
  unfolding frame_effects
  feed-full_frame f e =
      feed-step (suc f) s _ _ _ _
        (first_read ∙ ap (λ r. some (r, body ++ more)) (after_head-full e))
      ∙ ap (prepend [])
          (feed-step f _ _ _ _ _ (body-read s h body more w fits (length body) _ refl))

-- One frame: what follows it is read from the state that it leaves.
pub feed-frame :
    (body : Bytes) (n : ℕ) (s : Session) (h : Head) (more : Bytes)
    → IsFrame (h, body)
    → s.reading ≡ for_head
    → 2 ≤ n
    → (m : ℕ) × (n ≤ m + 2)
      × (feed n s (header_bytes h body ++ (body ++ more))
          ≡ prepend
              (after_body_get (whole_read s h body).read_msg)
              (feed m (whole_read s h body) more))
feed-frame [] (suc n) s h more (w, fits) e k =
    (n, omega arith, unfold frame_effects in feed-empty_frame s h [] more w fits e n refl)
feed-frame (c ∷ body) (suc (suc n)) s h more (w, fits) e k = (
  n,
  omega arith,
  unfold frame_effects in feed-full_frame s h (c ∷ body) more w fits e n (λ p. cc),
)
feed-frame body _ s h more ok e k = absurd (omega arith)
