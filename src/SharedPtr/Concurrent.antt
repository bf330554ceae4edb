-- ===== src/SharedPtr/Concurrent.antt =====
-- null/shared_ptr.h and weak_ptr.h under threads: the counts against what the threads hold.
use mathlib.Core.Path.{subst}
use mathlib.Core.Option.{some-injective}
use snippets_cc.Prelude.{
  ℕ, ◌+◌, ◌≡◌, ◌≢◌, ◌&&◌, not, refl, sym, ◌∙◌, Bool-cases, inl, inr, Option, some, Option-cases,
  List, [], ◌∷◌, ◌++◌, ◌==◌, get_elem?, set, total, total-ge, arith,
}
use snippets_cc.SharedPtr.ControlBlock.{Block, Slot, unallocated, live, deleted}
use snippets_cc.SharedPtr.Threads.{
  Agent, owner, observer, locking, disposing, releasing, destroying, gone, Action, copy, observe,
  destruct, lock, go_on, sub_use_count, sub_weak_count, exchange, act, System, access, step_agent,
  step, run, start,
}
use snippets_cc.SharedPtr.Units.{
  is_present, IsCounted, IsSafe, AllBecome, total-is_present, set-AllBecome,
}

-- Nothing changes in what is held.
kept-IsCounted :
    (g : Agent) (k : Block) (gs bs : List Agent)
    → AllBecome g g [] gs bs
    → IsCounted k gs
    → IsCounted k bs
unfolding total
kept-IsCounted g k gs bs e h = ground arith

exchanged-IsCounted :
    (n : ℕ) (k : Block) (gs bs : List Agent)
    → k.use_count ≡ n
    → n ≢ 0
    → AllBecome (locking n) observer (owner ∷ []) gs bs
    → IsCounted k gs
    → IsCounted (record k { use_count = n + 1 }) bs
unfolding total
exchanged-IsCounted n k gs bs eq ne e h = ground arith

act-IsSafe :
    (a : Action) (g : Agent) (k : Block) (gs bs : List Agent)
    → AllBecome g (act a g k).0 (act a g k).1 gs bs
    → IsCounted k gs
    → IsSafe (act a g k).2 bs
unfolding act sub_use_count sub_weak_count exchange total
act-IsSafe copy owner k gs bs e h = ground arith
act-IsSafe observe owner k gs bs e h = ground arith
act-IsSafe observe observer k gs bs e h = ground arith
act-IsSafe destruct owner k gs bs e h = elim (Bool-cases (k.use_count == 1)) [
  | inl last ↦ let e' = rw last at e in ground arith
  | inr more ↦ let e' = rw more at e in ground arith
]
act-IsSafe destruct observer k gs bs e h = elim (Bool-cases (k.weak_count == 1)) [
  | inl last ↦ let e' = rw last at e in ground arith
  | inr more ↦ let e' = rw more at e in ground arith
]
act-IsSafe lock observer k gs bs e h = ground arith
act-IsSafe (go_on spurious) (locking n) k gs bs e h = elim (Bool-cases (n == 0)) [
  | inl none_left ↦ let e' = rw none_left at e in rw none_left (ground arith)
  | inr some_left ↦ elim (Bool-cases ((k.use_count == n) && not spurious)) [
    | inl same ↦
        let e' = rw (some_left, same) at e in
        rw (some_left, same) (exchanged-IsCounted n k gs bs (ground arith) (ground arith) e' h)
    | inr other ↦ let e' = rw (some_left, other) at e in rw (some_left, other) (ground arith)
  ]
]
act-IsSafe (go_on spurious) disposing k gs bs e h = ground arith
act-IsSafe (go_on spurious) releasing k gs bs e h = elim (Bool-cases (k.weak_count == 1)) [
  | inl last ↦ let e' = rw last at e in ground arith
  | inr more ↦ let e' = rw more at e in ground arith
]
act-IsSafe (go_on spurious) destroying k gs bs e h = ground arith
act-IsSafe copy observer k gs bs e h = kept-IsCounted observer k gs bs e h
act-IsSafe copy (locking n) k gs bs e h = kept-IsCounted (locking n) k gs bs e h
act-IsSafe copy disposing k gs bs e h = kept-IsCounted disposing k gs bs e h
act-IsSafe copy releasing k gs bs e h = kept-IsCounted releasing k gs bs e h
act-IsSafe copy destroying k gs bs e h = kept-IsCounted destroying k gs bs e h
act-IsSafe copy gone k gs bs e h = kept-IsCounted gone k gs bs e h
act-IsSafe observe (locking n) k gs bs e h = kept-IsCounted (locking n) k gs bs e h
act-IsSafe observe disposing k gs bs e h = kept-IsCounted disposing k gs bs e h
act-IsSafe observe releasing k gs bs e h = kept-IsCounted releasing k gs bs e h
act-IsSafe observe destroying k gs bs e h = kept-IsCounted destroying k gs bs e h
act-IsSafe observe gone k gs bs e h = kept-IsCounted gone k gs bs e h
act-IsSafe destruct (locking n) k gs bs e h = kept-IsCounted (locking n) k gs bs e h
act-IsSafe destruct disposing k gs bs e h = kept-IsCounted disposing k gs bs e h
act-IsSafe destruct releasing k gs bs e h = kept-IsCounted releasing k gs bs e h
act-IsSafe destruct destroying k gs bs e h = kept-IsCounted destroying k gs bs e h
act-IsSafe destruct gone k gs bs e h = kept-IsCounted gone k gs bs e h
act-IsSafe lock owner k gs bs e h = kept-IsCounted owner k gs bs e h
act-IsSafe lock (locking n) k gs bs e h = kept-IsCounted (locking n) k gs bs e h
act-IsSafe lock disposing k gs bs e h = kept-IsCounted disposing k gs bs e h
act-IsSafe lock releasing k gs bs e h = kept-IsCounted releasing k gs bs e h
act-IsSafe lock destroying k gs bs e h = kept-IsCounted destroying k gs bs e h
act-IsSafe lock gone k gs bs e h = kept-IsCounted gone k gs bs e h
act-IsSafe (go_on spurious) owner k gs bs e h = kept-IsCounted owner k gs bs e h
act-IsSafe (go_on spurious) observer k gs bs e h = kept-IsCounted observer k gs bs e h
act-IsSafe (go_on spurious) gone k gs bs e h = kept-IsCounted gone k gs bs e h

-- An agent that is there keeps the block from deletion.
present-live :
    (i : ℕ) (g : Agent) (b : Slot) (gs : List Agent)
    → is_present g ≡ 1
    → get_elem? gs i ≡ some g
    → IsSafe b gs
    → (k : Block) × (b ≡ live k) × IsCounted k gs
present-live i g unallocated gs p e h = absurd h
present-live i g (live k) gs p e h = (k, refl, h)
present-live i g (deleted k) gs p e h = absurd (omega (arith, p, h.0, total-ge is_present gs i g e))

abbrev pub SafeStep : Option System → Type 0
SafeStep o = (s : System) × (o ≡ some s) × IsSafe s.block s.agents

access-IsSafe :
    (a : Action) (i : ℕ) (g : Agent) (s : System)
    → is_present g ≡ 1
    → get_elem? s.agents i ≡ some g
    → IsSafe s.block s.agents
    → SafeStep (access a i g s)
unfolding access
access-IsSafe a i g s p e h =
    let (k, eq, counted) = present-live i g s.block s.agents p e h in
    (
      record { block = (act a g k).2; agents = set s.agents i (act a g k).0 ++ (act a g k).1 },
      rw eq refl,
      act-IsSafe a g k s.agents _ (set-AllBecome i g (act a g k).0 (act a g k).1 s.agents e)
          counted,
    )

step_agent-IsSafe :
    (a : Action) (i : ℕ) (g : Agent) (s : System)
    → get_elem? s.agents i ≡ some g
    → IsSafe s.block s.agents
    → SafeStep (step_agent a i g s)
unfolding step_agent
step_agent-IsSafe a i gone s e h = (s, refl, h)
step_agent-IsSafe a i owner s e h = access-IsSafe a i owner s refl e h
step_agent-IsSafe a i observer s e h = access-IsSafe a i observer s refl e h
step_agent-IsSafe a i (locking n) s e h = access-IsSafe a i (locking n) s refl e h
step_agent-IsSafe a i disposing s e h = access-IsSafe a i disposing s refl e h
step_agent-IsSafe a i releasing s e h = access-IsSafe a i releasing s refl e h
step_agent-IsSafe a i destroying s e h = access-IsSafe a i destroying s refl e h

step-IsSafe : (a : Action) (i : ℕ) (s : System) → IsSafe s.block s.agents → SafeStep (step a i s)
unfolding step
step-IsSafe a i s h = elim (Option-cases (get_elem? s.agents i)) [
  | inl e ↦ (s, rw (e, step) refl, h)
  | inr (g, e) ↦ let (s', eq, h') = step_agent-IsSafe a i g s e h in (s', rw (e, step) eq, h')
]

run_from-IsSafe :
    (acts : List (Action × ℕ)) (s : System) → IsSafe s.block s.agents → SafeStep (run acts s)
unfolding run
run_from-IsSafe [] s h = (s, refl, h)
run_from-IsSafe ((a, i) ∷ acts) s h =
    let (s', eq, h') = step-IsSafe a i s h in rw eq (run_from-IsSafe acts s' h')

-- Whatever threads do with a shared_ptr and the pointers made from it, in whatever order their steps come, no step accesses
-- the block after its deletion. As long as the block is there `use_count` is the number of shared_ptrs, and the object
-- is disposed of at most once, not before the last shared_ptr is gone; the block is deleted only when no pointer is left,
-- after one disposal.
pub run-IsSafe : (acts : List (Action × ℕ)) (p : Option ℕ) → SafeStep (run acts (start p))
unfolding total
run-IsSafe acts p = run_from-IsSafe acts (start p) (ground arith)

-- When the threads have destructed every pointer and returned from the calls, the object has been disposed of once and the
-- block has been deleted.
pub run-deleted :
    (acts : List (Action × ℕ)) (p : Option ℕ) (s : System)
    → run acts (start p) ≡ some s
    → total is_present s.agents ≡ 0
    → (k : Block) × (s.block ≡ deleted k) × (k.disposals ≡ 1)
run-deleted acts p s e none_left =
    let (s', e', h) = run-IsSafe acts p in
    let same = some-injective _ _ (sym e' ∙ e) in
    deleted-IsSafe s.block s.agents (subst (λ t. IsSafe t.block t.agents) same h) none_left
  where
    deleted-IsSafe :
        (b : Slot) (gs : List Agent)
        → IsSafe b gs
        → total is_present gs ≡ 0
        → (k : Block) × (b ≡ deleted k) × (k.disposals ≡ 1)
    deleted-IsSafe unallocated gs h n = absurd h
    deleted-IsSafe (live k) gs h n = let m = total-is_present gs in absurd (ground arith)
    deleted-IsSafe (deleted k) gs h n = (k, refl, h.1)
