-- ===== src/Events/Notify/Whole.antt =====
-- miniupnpd/upnpevents.c: a notification that waits for its response has sent its whole text.
use miniupnpd_sdn.Base.{
  ℕ, zero, suc, ◌+◌, ◌-◌, ◌≤◌, ◌≡◌, refl, ap, ◌∙◌, sym, ◌⊎◌, inl, inr, Bool, false, List, [], ◌∷◌,
  ◌++◌, Option, none, some, Bytes, ltb, leb, ◌==◌, ==_iff, length, take, drop, Bool-cases, arith,
  append_assoc,
}
use miniupnpd_sdn.Base.Options.{◌>>=◌, none-some}
use miniupnpd_sdn.Events.Callback.{Target}
use miniupnpd_sdn.Events.Notify.{
  NotifyState, created, connecting, sending, waiting_for_response, finished, error, Subscriber,
  Notify, Transferred, moved, again, failed, Answers, notify_message, make_buffer, prepare_for,
  upnp_event_prepare, count_sent, at_most, upnp_event_send, upnp_event_recv, send_answer,
  send_prepared, after_connect, process_in, recv_answer, upnp_event_process_notify,
}

-- The steps of a notification, with what the system answered in them, the last first, and the bytes
-- that they send: the calls of upnp_event_process_notify, and the removal of its subscriber by
-- upnpevents_removeSubscriber.
pub data Sends : Notify → List Answers → Bytes → Notify → Type 0 where
  start : (o : Notify) → Sends o [] [] o
  process :
      (o o' o'' : Notify) (asked : List Answers) (w w' : Bytes) (a : Answers)
      → Sends o asked w o'
      → upnp_event_process_notify a o' ≡ some (w', o'')
      → Sends o (a ∷ asked) (w ++ w') o''
  removed :
      (o o' : Notify) (asked : List Answers) (w : Bytes)
      → Sends o asked w o'
      → Sends o asked w (record o' { sub = none })

-- The text for this target and subscriber, with the variables as one of the answers gave them.
abbrev IsTextFor : Target → Subscriber → List Answers → Bytes → Type 0
IsTextFor target sub [] text = ⊥
IsTextFor target sub (a ∷ asked) text =
    (text ≡ notify_message target sub (a.vars sub.service)) ⊎ IsTextFor target sub asked text

-- The text for the target and the subscriber that the notification began with.
abbrev HasText : Notify → List Answers → Notify → Type 0
HasText begun asked o =
    (sub : Subscriber) × (begun.sub ≡ some sub) × IsTextFor begun.target sub asked o.buffer

-- It has its target still, and its subscriber or none.
abbrev IsSame : Notify → Notify → Type 0
IsSame begun o = (o.target ≡ begun.target) × ((o.sub ≡ none) ⊎ (o.sub ≡ begun.sub))

abbrev IsSentIn : Notify → List Answers → Notify → Bytes → NotifyState → Type 0
IsSentIn begun asked o w created = (w ≡ []) × (o.sent ≡ 0) × IsSame begun o
IsSentIn begun asked o w connecting = (w ≡ []) × (o.sent ≡ 0) × IsSame begun o
IsSentIn begun asked o w sending =
    HasText begun asked o
    × (w ++ drop o.sent o.buffer ≡ o.buffer)
    × (o.tosend ≡ length o.buffer)
    × (o.sent ≤ o.tosend)
IsSentIn begun asked o w waiting_for_response = HasText begun asked o × (w ≡ o.buffer)
IsSentIn begun asked o w finished = HasText begun asked o × (w ≡ o.buffer)
IsSentIn begun asked o w error = Unit {0}

-- By its state: the bytes sent are none at first, then those in front of the rest of the text, and the
-- whole text in the end.
abbrev pub IsSent : Notify → List Answers → Notify → Bytes → Type 0
IsSent begun asked o w = IsSentIn begun asked o w o.state

more-HasText :
    (begun o : Notify) (a : Answers) (asked : List Answers)
    → HasText begun asked o
    → HasText begun (a ∷ asked) o
more-HasText begun o a asked h = (h.0, h.1, inr h.2)

more-IsSentIn :
    (begun o : Notify) (a : Answers) (asked : List Answers) (w : Bytes) (st : NotifyState)
    → IsSentIn begun asked o w st
    → IsSentIn begun (a ∷ asked) o w st
more-IsSentIn begun o a asked w created h = h
more-IsSentIn begun o a asked w connecting h = h
more-IsSentIn begun o a asked w sending (text, front, size, fits) =
    (more-HasText begun o a asked text, front, size, fits)
more-IsSentIn begun o a asked w waiting_for_response h = (more-HasText begun o a asked h.0, h.1)
more-IsSentIn begun o a asked w finished h = (more-HasText begun o a asked h.0, h.1)
more-IsSentIn begun o a asked w error h = h

append_nil : (w : Bytes) → w ++ [] ≡ w
append_nil [] = refl
append_nil (c ∷ w) = ap (λ v. c ∷ v) (append_nil w)

take-drop : (i : ℕ) (b : Bytes) → take i b ++ drop i b ≡ b
take-drop zero b = refl
take-drop (suc i) [] = refl
take-drop (suc i) (c ∷ b) = ap (λ v. c ∷ v) (take-drop i b)

abbrev no_bytes : Bytes
no_bytes = []

drop-nil : (i : ℕ) → drop i no_bytes ≡ no_bytes
drop-nil zero = refl
drop-nil (suc i) = refl

drop-drop : (s i : ℕ) (b : Bytes) → drop (s + i) b ≡ drop i (drop s b)
drop-drop zero i b = ap (λ (k : ℕ). drop k b) (omega arith)
drop-drop (suc s) i [] = drop-nil (suc s + i) ∙ sym (drop-nil i)
drop-drop (suc s) i (c ∷ b) =
    let k : suc s + i ≡ suc (s + i) = omega arith in
    ap (λ (n : ℕ). drop n (c ∷ b)) k ∙ drop-drop s i b

drop-length : (b : Bytes) → drop (length b) b ≡ []
drop-length [] = refl
drop-length (c ∷ b) = drop-length b

-- After `i` more bytes.
sent_more :
    (w b : Bytes) (s i : ℕ) → w ++ drop s b ≡ b → (w ++ take i (drop s b)) ++ drop (s + i) b ≡ b
sent_more w b s i h =
    append_assoc w (take i (drop s b)) (drop (s + i) b)
    ∙ ap (λ v. w ++ (take i (drop s b) ++ v)) (drop-drop s i b)
    ∙ ap (λ v. w ++ v) (take-drop i (drop s b))
    ∙ h

module _ (begun : Notify) (asked : List Answers) where
  count_sent-IsSent :
      (o : Notify) (w : Bytes) (i : ℕ)
      → i ≤ o.tosend - o.sent
      → o.state ≡ sending
      → IsSentIn begun asked o w sending
      → IsSent begun asked (count_sent o i).1 (w ++ (count_sent o i).0)
  count_sent-IsSent o w i le e (text, front, size, fits) =
      let more = sent_more w o.buffer o.sent i front in
      elim (Bool-cases (o.sent + i == o.tosend)) [
        | inl d ↦
            let all : o.sent + i ≡ length o.buffer = (==_iff (o.sent + i) o.tosend).0 d ∙ size in
            let rest = ap (λ (k : ℕ). drop k o.buffer) all ∙ drop-length o.buffer in
            rw d (
              text,
              sym (append_nil (w ++ take i (drop o.sent o.buffer)))
                  ∙ ap (λ v. (w ++ take i (drop o.sent o.buffer)) ++ v) (sym rest)
                  ∙ more,
            )
        | inr d ↦ rw (d, e) (text, more, size, omega arith)
      ]

  at_most-le : (rest i : ℕ) → at_most rest i ≤ rest
  at_most-le rest i = elim (Bool-cases (leb i rest)) [
    | inl e ↦ rw e (ground arith)
    | inr e ↦ rw e (omega arith)
  ]

  send-IsSent :
      (a : Answers) (o : Notify) (w : Bytes)
      → o.state ≡ sending
      → IsSentIn begun asked o w sending
      → IsSent begun asked (upnp_event_send a o).1 (w ++ (upnp_event_send a o).0)
  unfolding upnp_event_send
  send-IsSent a o w e h = by_answer a.send
    where
      by_answer :
          (t : Transferred) → IsSent begun asked (send_answer o t).1 (w ++ (send_answer o t).0)
      by_answer (moved i) =
          count_sent-IsSent o w (at_most (o.tosend - o.sent) i) (at_most-le (o.tosend - o.sent) i) e
            h
      by_answer again = count_sent-IsSent o w 0 (omega arith) e h
      by_answer failed = tt

  -- What upnp_event_prepare leaves.
  abbrev IsPrepared : Option Notify → Type 0
  IsPrepared none = Unit {0}
  IsPrepared (some o) =
      (o.state ≡ error) ⊎ ((o.state ≡ sending) × IsSentIn begun asked o [] sending)

  make_buffer-IsPrepared :
      (fuel k : ℕ) (malloc : ℕ → Bool) (size : ℕ) (sub : Subscriber) (text : Bytes) (o : Notify)
      → o.sent ≡ 0
      → begun.sub ≡ some sub
      → IsTextFor begun.target sub asked text
      → IsPrepared (make_buffer fuel k malloc size text o)
  unfolding make_buffer
  make_buffer-IsPrepared zero k malloc size sub text o z same is_text = tt
  make_buffer-IsPrepared (suc fuel) k malloc size sub text o z same is_text =
      elim (Bool-cases (malloc k)) [
        | inr m ↦ rw m (inl refl)
        | inl m ↦ elim (Bool-cases (ltb (length text) size)) [
          | inl t ↦
              rw (m, t)
                (inr (
                  refl,
                  ((sub, same, is_text), ap (λ (i : ℕ). drop i text) z, refl, rw z (omega arith)),
                ))
          | inr t ↦
              rw (m, t)
                (make_buffer-IsPrepared fuel (suc k) malloc (length text + 1) sub text
                  (record o { tosend = length text }) z same is_text)
        ]
      ]

  message-IsPrepared :
      (a : Answers) (older : List Answers) (o : Notify) (sub : Subscriber)
      → asked ≡ a ∷ older
      → o.sent ≡ 0
      → o.target ≡ begun.target
      → begun.sub ≡ some sub
      → IsPrepared (prepare_for a o (some sub))
  message-IsPrepared a older o sub e z t same =
      let newest : IsTextFor begun.target sub (a ∷ older)
          (notify_message o.target sub (a.vars sub.service)) =
        inl (ap (λ u. notify_message u sub (a.vars sub.service)) t) in
      make_buffer-IsPrepared 2 0 a.malloc 1024 sub
        (notify_message o.target sub (a.vars sub.service)) o z same (rw e newest)

  prepare-IsPrepared :
      (a : Answers) (older : List Answers) (o : Notify)
      → asked ≡ a ∷ older
      → o.sent ≡ 0
      → IsSame begun o
      → IsPrepared (upnp_event_prepare a o)
  unfolding upnp_event_prepare
  prepare-IsPrepared a older o e z (t, s) = of_sub o.sub s
    where
      of_sub :
          (sub : Option Subscriber)
          → (sub ≡ none) ⊎ (sub ≡ begun.sub)
          → IsPrepared (prepare_for a o sub)
      of_sub none h = inl refl
      of_sub (some sub) (inl h) = absurd (none-some sub (sym h))
      of_sub (some sub) (inr h) = message-IsPrepared a older o sub e z t (sym h)

  abbrev AllSent : Bytes → Option (Bytes × Notify) → Type 0
  AllSent w none = Unit {0}
  AllSent w (some (w', o)) = IsSent begun asked o (w ++ w')

  IsSent-in :
      (o : Notify) (w : Bytes) (st : NotifyState)
      → o.state ≡ st
      → IsSentIn begun asked o w st
      → IsSent begun asked o w
  IsSent-in o w st e h = rw (sym e) at h

  -- It is one of these two states.
  abbrev IsReady : Notify → NotifyState → Type 0
  IsReady o st = (st ≡ error) ⊎ ((st ≡ sending) × IsSentIn begun asked o [] sending)

  send_prepared-IsSent :
      (a : Answers) (o : Notify) (st : NotifyState)
      → o.state ≡ st
      → IsReady o st
      → IsSent begun asked (send_prepared a o st).1 (send_prepared a o st).0
  send_prepared-IsSent a o sending e (inl x) = absurd (ground arith)
  send_prepared-IsSent a o sending e (inr x) = send-IsSent a o [] e x.1
  send_prepared-IsSent a o error e x = IsSent-in o [] error e tt
  send_prepared-IsSent a o created e x = absurd (ground arith)
  send_prepared-IsSent a o connecting e x = absurd (ground arith)
  send_prepared-IsSent a o waiting_for_response e x = absurd (ground arith)
  send_prepared-IsSent a o finished e x = absurd (ground arith)

  abbrev then_send : Answers → Option Notify → Option (Bytes × Notify)
  then_send a p = (do o ← p; some (send_prepared a o o.state))

  then_send-AllSent : (a : Answers) (p : Option Notify) → IsPrepared p → AllSent [] (then_send a p)
  then_send-AllSent a none h = tt
  then_send-AllSent a (some o) h = send_prepared-IsSent a o o.state refl h

  after_connect-AllSent :
      (a : Answers) (older : List Answers) (o : Notify) (w : Bytes) (e : Option ℕ)
      → asked ≡ a ∷ older
      → (w ≡ []) × (o.sent ≡ 0) × IsSame begun o
      → AllSent w (after_connect a o e)
  after_connect-AllSent a older o w none e h = tt
  after_connect-AllSent a older o w (some (suc n)) e h = tt
  after_connect-AllSent a older o w (some zero) e h =
      let t =
        then_send-AllSent a (upnp_event_prepare a o) (prepare-IsPrepared a older o e h.1 h.2) in
      rw h.0 t

  recv-IsSent :
      (o : Notify) (w : Bytes) (t : Transferred)
      → o.state ≡ waiting_for_response
      → IsSentIn begun asked o w waiting_for_response
      → IsSent begun asked (recv_answer o t) w
  recv-IsSent o w (moved n) e h = h
  recv-IsSent o w again e h = IsSent-in o w waiting_for_response e h
  recv-IsSent o w failed e h = tt

  process_in-AllSent :
      (a : Answers) (older : List Answers) (o : Notify) (w : Bytes) (st : NotifyState)
      → asked ≡ a ∷ older
      → o.state ≡ st
      → IsSentIn begun asked o w st
      → AllSent w (process_in a o st)
  unfolding upnp_event_recv
  process_in-AllSent a older o w connecting q e h = after_connect-AllSent a older o w a.so_error q h
  process_in-AllSent a older o w sending q e h = send-IsSent a o w e h
  process_in-AllSent a older o w waiting_for_response q e h =
      rw (append_nil w) (recv-IsSent o w a.recv e h)
  process_in-AllSent a older o w finished q e h =
      rw (append_nil w) (IsSent-in (record o { is_open = false }) w finished e h)
  process_in-AllSent a older o w created q e h = rw (append_nil w) (IsSent-in o w created e h)
  process_in-AllSent a older o w error q e h = rw (append_nil w) (IsSent-in o w error e h)

  removed-IsSent :
      (o : Notify) (w : Bytes) (st : NotifyState)
      → IsSentIn begun asked o w st
      → IsSentIn begun asked (record o { sub = none }) w st
  removed-IsSent o w created h = (h.0, h.1, (h.2.0, inl refl))
  removed-IsSent o w connecting h = (h.0, h.1, (h.2.0, inl refl))
  removed-IsSent o w sending h = h
  removed-IsSent o w waiting_for_response h = h
  removed-IsSent o w finished h = h
  removed-IsSent o w error h = h

-- From a connection that has been begun on, whatever the system answers: a notification that waits
-- for its response or has it has sent exactly its text; one that is sending has sent what is in front
-- of the rest; and before the text is made nothing is sent. The text is that for the target and the
-- subscriber that the notification began with, and for the variables that one of the answers gave.
pub Sends-IsSent :
    (o o' : Notify) (asked : List Answers) (w : Bytes)
    → o.state ≡ connecting
    → o.sent ≡ 0
    → Sends o asked w o'
    → IsSent o asked o' w
unfolding upnp_event_process_notify
Sends-IsSent o _ _ _ e z (start _) = IsSent-in o [] o [] connecting e (refl, z, (refl, inr refl))
Sends-IsSent o _ _ _ e z (process _ o1 o2 older w1 w2 a steps h) =
    let before = Sends-IsSent o o1 older w1 e z steps in
    rw h at (
      process_in-AllSent o (a ∷ older) a older o1 w1 o1.state refl refl
        (more-IsSentIn o o1 a older w1 o1.state before))
Sends-IsSent o _ _ _ e z (removed _ o1 asked w1 steps) =
    removed-IsSent o asked o1 w1 o1.state (Sends-IsSent o o1 asked w1 e z steps)
