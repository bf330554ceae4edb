-- ===== src/Conversation/Coroutines.antt =====
-- asio/echo/co_server.cc: the session of coroutines as the other end of a conversation.
use snippets_cc.Prelude.{
  false, ℕ, ◌+◌, ◌≡◌, refl, sym, ap, ◌∙◌, Option, none, inl, inr, List, [], ◌∷◌, ◌++◌, leb, length,
  take, drop, append-nil, append_assoc, Bool-cases, take_of_length-le, take-drop, arith,
}
use snippets_cc.Asio.{
  Operation, no_operation, receiving, writing, Wait, no_wait, armed, cancelled, Owes, Event,
  data_received, receive_failed, all_written, write_failed, wait_ended, wait_cancelled,
}
use snippets_cc.CoroutineServer.{
  Session, echo, echo_received, echo_written, watch, watch_waited, start_with_watchdog,
  start_watchdog, react, step, deliver,
}
use snippets_cc.CoroutineServer.Agreement.{resize-append}
use snippets_cc.CoroutineServer.Guard.{Progress, watch_begins, completes, run_any}
use snippets_cc.Conversation.{PeerOps, PeerLaws, Grows, IsPrefix, System, Reach, in_flight}
use snippets_cc.Conversation.Streams.{answered-IsPrefix}
use snippets_cc.Conversation.Received.{arrives}
use snippets_cc.Conversation.Echoes.{ReadsHello, Reach-ReadsHello}

-- A coroutine that writes has cut its buffer to what it writes.
abbrev IsCut : Operation → List ℕ → Type 0
IsCut (writing n) buffer = take n buffer ≡ buffer
IsCut _ buffer = Unit {0}

abbrev pub IsBalanced : Session → Type 0
IsBalanced s = Owes s.operation s.received s.sent s.buffer × IsCut s.operation s.buffer

-- An event leaves the session balanced, and adds its bytes to those received or nothing.
abbrev Passes : Event → (before after : Session) → Type 0
Passes e s t = IsBalanced t × Grows (arrives e) s.received t.received

watch-Passes : (e : Event) (s : Session) → IsBalanced s → Passes e s (watch s)
unfolding watch
watch-Passes e s v = elim (Bool-cases (leb s.deadline s.now)) [
  | inl late ↦ rw late (v, inl refl)
  | inr early ↦ rw early (v, inl refl)
]

data_received-Passes :
    (bytes : List ℕ) (s : Session)
    → s.received ≡ s.sent
    → Passes (data_received bytes) s (echo_received false (length bytes) (deliver bytes s))
unfolding echo_received
data_received-Passes bytes s h =
    let cut = resize-append bytes (drop (length bytes) s.buffer) in
    let whole : take (length bytes) bytes ≡ bytes =
      take_of_length-le (length bytes) bytes (omega arith) in
    (
      rw cut (ap (λ xs. xs ++ bytes) h ∙ ap (s.sent ++◌) (sym whole), whole),
      inr (bytes, refl, refl),
    )

react-Passes :
    (e : Event) (o : Operation) (w : Wait) (s : Session)
    → s.operation ≡ o
    → Owes o s.received s.sent s.buffer × IsCut o s.buffer
    → Passes e s (react e o w s)
unfolding react echo echo_received echo_written watch_waited
react-Passes (data_received bytes) receiving w s e h =
    elim (Bool-cases (leb (length bytes) (length s.buffer))) [
      | inl fits ↦ rw fits (data_received-Passes bytes s h.0)
      | inr over ↦ rw over (rw e h, inl refl)
    ]
react-Passes receive_failed receiving w s e h =
    ((([], h.0 ∙ sym (append-nil s.sent)), tt), inl refl)
react-Passes all_written (writing n) w s e h = ((h.0, tt), inl refl)
react-Passes (write_failed count) (writing n) w s e h = (
  (
    (
      drop count s.buffer,
      h.0 ∙ ap (s.sent ++◌) (h.1 ∙ sym (take-drop count s.buffer)) ∙ sym (append_assoc s.sent _ _),
    ),
    tt,
  ),
  inl refl,
)
react-Passes (data_received bytes) no_operation w s e h = (rw e h, inl refl)
react-Passes (data_received bytes) (writing n) w s e h = (rw e h, inl refl)
react-Passes receive_failed no_operation w s e h = (rw e h, inl refl)
react-Passes receive_failed (writing n) w s e h = (rw e h, inl refl)
react-Passes all_written no_operation w s e h = (rw e h, inl refl)
react-Passes all_written receiving w s e h = (rw e h, inl refl)
react-Passes (write_failed count) no_operation w s e h = (rw e h, inl refl)
react-Passes (write_failed count) receiving w s e h = (rw e h, inl refl)
react-Passes wait_ended o (armed expiry) s e h = elim (Bool-cases (leb expiry s.now)) [
  | inl due ↦ rw due (watch-Passes wait_ended (record s { wait = no_wait }) (rw e h))
  | inr early ↦ rw early (rw e h, inl refl)
]
react-Passes wait_ended o cancelled s e h =
    watch-Passes wait_ended (record s { wait = no_wait }) (rw e h)
react-Passes wait_ended o no_wait s e h = (rw e h, inl refl)
react-Passes wait_cancelled o no_wait s e h = (rw e h, inl refl)
react-Passes wait_cancelled o (armed expiry) s e h = (rw e h, inl refl)
react-Passes wait_cancelled o cancelled s e h = (rw e h, inl refl)

start_watchdog-Passes :
    (s : Session)
    → IsBalanced s
    → IsBalanced (start_watchdog s) × ((start_watchdog s).received ≡ s.received)
unfolding start_watchdog watch
start_watchdog-Passes s v = elim (Bool-cases s.is_watched) [
  | inl begun ↦ rw begun (v, refl)
  | inr new ↦ elim (Bool-cases (leb s.deadline s.now)) [
    | inl late ↦ rw (new, late) (v, refl)
    | inr early ↦ rw (new, early) (v, refl)
  ]
]

abbrev pub progress_arrives : Progress → Option (List ℕ)
progress_arrives watch_begins = none
progress_arrives (completes e elapsed) = arrives e

-- The time before the watching coroutine begins, or before an operation completes, is added to that of `completes`.
abbrev pub after : (elapsed : ℕ) → Session → Session
after elapsed s = record s { now = s.now + elapsed }

unfoldable pub coroutines : PeerOps Session Progress
coroutines = record {
  step = λ p elapsed s. run_any (p ∷ []) (after elapsed s);
  received = λ s. s.received;
  answered = λ s. s.sent ++ in_flight s.operation s.buffer;
  arrives = progress_arrives;
}

-- The coroutines go on in any order.
abbrev pub Anyhow : Progress → Session → Type 0
Anyhow p s = Unit {0}

IsBalanced-IsPrefix :
    (s : Session) → IsBalanced s → IsPrefix (s.sent ++ in_flight s.operation s.buffer) s.received
IsBalanced-IsPrefix s v = answered-IsPrefix s.operation s.received s.sent s.buffer v.0

progress-Passes :
    (p : Progress) (elapsed : ℕ) (s : Session)
    → IsBalanced s
    → IsBalanced (run_any (p ∷ []) (after elapsed s))
      × Grows (progress_arrives p) s.received (run_any (p ∷ []) (after elapsed s)).received
unfolding run_any step
progress-Passes watch_begins elapsed s v =
    let (w, same) = start_watchdog-Passes (after elapsed s) v in (w, inl same)
progress-Passes (completes e more) elapsed s v = react-Passes e s.operation s.wait _ refl v

coroutines_laws : PeerLaws coroutines Anyhow IsBalanced
unfolding coroutines
coroutines_laws = record {
  keeps = λ p elapsed s allowed v. (progress-Passes p elapsed s v).0;
  echoes = IsBalanced-IsPrefix;
  grows = λ p elapsed s v. (progress-Passes p elapsed s v).1;
}

-- A client session that is connected to a session of co_server.cc: however TCP cuts the bytes into pieces, whatever fails, whatever
-- the times and in whatever order the two coroutines go on, the reads of the client have delivered its message once each, each has
-- been counted in `echoes`, modulo 2 ^ 32, and a read that TCP may complete next delivers the message.
pub coroutines-ReadsHello :
    (timeout now : ℕ) {s : System Session}
    → Reach coroutines Anyhow (start_with_watchdog timeout now) s
    → ReadsHello coroutines s
unfolding coroutines start_with_watchdog echo
coroutines-ReadsHello timeout now r =
    Reach-ReadsHello coroutines Anyhow IsBalanced coroutines_laws (refl, tt) refl r
