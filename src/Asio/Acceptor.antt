-- ===== src/Asio/Acceptor.antt =====
-- asio/echo/server.cc and asio/proxy/server.cc: class server, which accepts connections and starts a session for each.
-- The sessions are those of the one or the other program; each handler of a session is a step of that session alone.
use snippets_cc.Prelude.{
  ℕ, zero, suc, ◌+◌, ◌≡◌, refl, ap, ◌∙◌, Bool, true, false, Bool-cases, inl, inr, Option, none,
  some, List, [], ◌∷◌, ◌++◌, map, if◌then◌else◌, length, length-append, length-map, All, arith,
}

-- What the server makes and starts at a time, given what the session finds in its memory; the handler that a
-- completion calls after some time; and the passing of time.
pub record SessionOps (A M E : Type 0) : Type 0 where
  pub started : (now : ℕ) → M → A
  pub step : E → (elapsed : ℕ) → A → A
  pub advance : (elapsed : ℕ) → A → A

-- A property of the session that is started, and that the steps and time keep.
pub record SessionLaws {A M E : Type 0} (ops : SessionOps A M E) (P : A → Type 0) : Type 0 where
  pub of_started : (now : ℕ) (memory : M) → P (ops.started now memory)
  pub of_step : (e : E) (elapsed : ℕ) (s : A) → P s → P (ops.step e elapsed s)
  pub of_advance : (elapsed : ℕ) (s : A) → P s → P (ops.advance elapsed s)

-- Whether `async_accept` is pending, and all the sessions that have been started.
pub record Server (A : Type 0) : Type 0 where
  pub is_accepting : Bool
  pub sessions : List A
  pub now : ℕ

pub data Completion (M E : Type 0) : Type 0 where
  accept_ends : Option M → Completion M E
  of_session : (i : ℕ) → E → Completion M E

unfoldable pub start : {A : Type 0} → Server A → Server A
start s = record s { is_accepting = true }

module _ {A M E : Type 0} (ops : SessionOps A M E) where
  -- The lambda `handle_accept`; `none` stands for an error.
  unfoldable pub handle_accept : Option M → Server A → Server A
  handle_accept none s = s
  handle_accept (some memory) s =
      start (record s { sessions = s.sessions ++ ops.started s.now memory ∷ [] })

  -- The session `i` gets the completion; time passes for all.
  unfoldable pub on_session : ℕ → E → (elapsed : ℕ) → List A → List A
  on_session i e elapsed [] = []
  on_session zero e elapsed (s ∷ ss) = ops.step e elapsed s ∷ map (ops.advance elapsed) ss
  on_session (suc i) e elapsed (s ∷ ss) = ops.advance elapsed s ∷ on_session i e elapsed ss

  -- The handler of the pending accept, or one of a session.
  unfoldable pub react : Completion M E → (elapsed : ℕ) → Server A → Server A
  react (accept_ends socket) elapsed s =
      let s' = record s {
        now = s.now + elapsed;
        sessions = map (ops.advance elapsed) s.sessions;
      } in
      if s.is_accepting then handle_accept socket (record s' { is_accepting = false }) else s'
  react (of_session i e) elapsed s = record s {
    now = s.now + elapsed;
    sessions = on_session i e elapsed s.sessions;
  }

  unfoldable pub run : List (Completion M E × ℕ) → Server A → Server A
  run [] s = s
  run ((c, elapsed) ∷ cs) s = run cs (react c elapsed s)

-- The accepts that succeed before the first that fails.
unfoldable pub admitted : {M E : Type 0} → List (Completion M E × ℕ) → ℕ
admitted [] = 0
admitted ((accept_ends none, elapsed) ∷ cs) = 0
admitted ((accept_ends (some memory), elapsed) ∷ cs) = suc (admitted cs)
admitted ((of_session i e, elapsed) ∷ cs) = admitted cs

module _ {A M E : Type 0} (ops : SessionOps A M E) where
  length-on_session :
      (i : ℕ) (e : E) (elapsed : ℕ) (ss : List A)
      → length (on_session ops i e elapsed ss) ≡ length ss
  unfolding on_session
  length-on_session i e elapsed [] = refl
  length-on_session zero e elapsed (s ∷ ss) = ap suc (length-map (ops.advance elapsed) ss)
  length-on_session (suc i) e elapsed (s ∷ ss) = ap suc (length-on_session i e elapsed ss)

  -- A server that does not accept any more.
  length-run_stopped :
      (cs : List (Completion M E × ℕ)) (s : Server A)
      → s.is_accepting ≡ false
      → length (run ops cs s).sessions ≡ length s.sessions
  unfolding run react
  length-run_stopped [] s e = refl
  length-run_stopped ((accept_ends socket, elapsed) ∷ cs) s e =
      length-run_stopped cs (react ops (accept_ends socket) elapsed s) (rw (e, react) refl)
      ∙ rw (e, react) (length-map (ops.advance elapsed) s.sessions)
  length-run_stopped ((of_session i c, elapsed) ∷ cs) s e =
      length-run_stopped cs (react ops (of_session i c) elapsed s) e
      ∙ length-on_session i c elapsed s.sessions

  -- A server that accepts has a session more for each accept that succeeds before the first that fails.
  pub length-run :
      (cs : List (Completion M E × ℕ)) (s : Server A)
      → s.is_accepting ≡ true
      → length (run ops cs s).sessions ≡ length s.sessions + admitted cs
  unfolding run react admitted handle_accept start
  length-run [] s e = omega arith
  length-run ((accept_ends none, elapsed) ∷ cs) s e = rw e (
      length-run_stopped cs
        (record {
          is_accepting = false;
          sessions = map (ops.advance elapsed) s.sessions;
          now = s.now + elapsed;
        })
        refl
      ∙ omega (arith, length-map (ops.advance elapsed) s.sessions))
  length-run ((accept_ends (some memory), elapsed) ∷ cs) s e =
      let ss = map (ops.advance elapsed) s.sessions in
      let new = ops.started (s.now + elapsed) memory ∷ [] in
      rw e (
        length-run cs (record { is_accepting = true; sessions = ss ++ new; now = s.now + elapsed })
          refl
        ∙ omega (arith, length-append ss new, length-map (ops.advance elapsed) s.sessions))
  length-run ((of_session i c, elapsed) ∷ cs) s e =
      length-run cs (react ops (of_session i c) elapsed s) e
      ∙ omega (arith, length-on_session i c elapsed s.sessions)

module _ {A M E : Type 0} (ops : SessionOps A M E) {P : A → Type 0} (laws : SessionLaws ops P) where
  All-advance : (elapsed : ℕ) (ss : List A) → All P ss → All P (map (ops.advance elapsed) ss)
  All-advance elapsed [] h = tt
  All-advance elapsed (s ∷ ss) h = (laws.of_advance elapsed s h.0, All-advance elapsed ss h.1)

  All-on_session :
      (i : ℕ) (e : E) (elapsed : ℕ) (ss : List A) → All P ss → All P (on_session ops i e elapsed ss)
  unfolding on_session
  All-on_session i e elapsed [] h = tt
  All-on_session zero e elapsed (s ∷ ss) h =
      (laws.of_step e elapsed s h.0, All-advance elapsed ss h.1)
  All-on_session (suc i) e elapsed (s ∷ ss) h =
      (laws.of_advance elapsed s h.0, All-on_session i e elapsed ss h.1)

  All-snoc : (ss : List A) (s : A) → All P ss → P s → All P (ss ++ s ∷ [])
  All-snoc [] s h p = (p, tt)
  All-snoc (t ∷ ss) s h p = (h.0, All-snoc ss s h.1 p)

  react-All :
      (c : Completion M E) (elapsed : ℕ) (s : Server A)
      → All P s.sessions
      → All P (react ops c elapsed s).sessions
  unfolding react handle_accept start
  react-All (accept_ends none) elapsed s h = elim (Bool-cases s.is_accepting) [
    | inl e ↦ rw e (All-advance elapsed s.sessions h)
    | inr e ↦ rw e (All-advance elapsed s.sessions h)
  ]
  react-All (accept_ends (some memory)) elapsed s h = elim (Bool-cases s.is_accepting) [
    | inl e ↦ rw e (
        All-snoc (map (ops.advance elapsed) s.sessions) _ (All-advance elapsed s.sessions h)
          (laws.of_started (s.now + elapsed) memory))
    | inr e ↦ rw e (All-advance elapsed s.sessions h)
  ]
  react-All (of_session i e) elapsed s h = All-on_session i e elapsed s.sessions h

  -- What holds for a session by itself holds for every session of the server.
  pub run-All :
      (cs : List (Completion M E × ℕ)) (s : Server A)
      → All P s.sessions
      → All P (run ops cs s).sessions
  unfolding run
  run-All [] s h = h
  run-All ((c, elapsed) ∷ cs) s h = run-All cs (react ops c elapsed s) (react-All c elapsed s h)
