-- ===== src/SharedPtr/Steps.antt =====
-- null/shared_ptr.h, control_block_base: each operation on the numbers of owners and observers.
use snippets_cc.Prelude.{
  ℕ, zero, suc, ◌+◌, ◌-◌, ◌<◌, ◌≡◌, refl, ◌⊎◌, inl, inr, true, false, Option, some, ◌==◌,
  if◌then◌else◌, Bool-cases, ==_iff, arith,
}
use mathlib.Core.Path.{subst}
use snippets_cc.SharedPtr.ControlBlock.{
  Block, live, deleted, Heap, update, new_block, inc_use_count, inc_weak_count, dispose, destroy,
  dec_weak_count, dec_use_count, lock_loop, lock_use_count,
}
use snippets_cc.SharedPtr.Counts.{
  BlockOk, Allocated, HeapOk, one, one_self, Changed, update-Changed, Changed-trans, Changed-HeapOk,
  allocated, held,
}
use snippets_cc.SharedPtr.OneBlock.{
  owner_added, observer_added, observer_removed, owner_removed, last_owner_removed, elsewhere_added,
  elsewhere_removed, Allocated-if,
}

-- The operation succeeds and leaves a heap for `s` owners and `w` observers.
abbrev pub Leaves : Option Heap → (ℕ → ℕ) → (ℕ → ℕ) → Type 0
Leaves o s w = (h' : Heap) × (o ≡ some h') × HeapOk h' s w

pub inc_use_count-Leaves :
    (h : Heap) (s w : ℕ → ℕ) (b : ℕ)
    → HeapOk h s w
    → 0 < s b
    → Leaves (inc_use_count b h) (λ c. s c + one b c) w
unfolding inc_use_count
inc_use_count-Leaves h s w b ok pos =
    let (k, e, here) = held b ok (omega arith) in
    let k' = live (record k { use_count = k.use_count + 1 }) in
    let after : BlockOk k' (s b + one b b) (w b) = rw (one_self b) (owner_added k _ _ here pos) in
    (
      update h b k',
      rw e refl,
      Changed-HeapOk _ _ ok (update-Changed h b k') (allocated ok e) after tt
          (λ c ne. (elsewhere_added s b c ne, refl)),
    )

pub inc_weak_count-Leaves :
    (h : Heap) (s w : ℕ → ℕ) (b : ℕ)
    → HeapOk h s w
    → 0 < s b + w b
    → Leaves (inc_weak_count b h) s (λ c. w c + one b c)
unfolding inc_weak_count
inc_weak_count-Leaves h s w b ok pos =
    let (k, e, here) = held b ok pos in
    let k' = live (record k { weak_count = k.weak_count + 1 }) in
    let after : BlockOk k' (s b) (w b + one b b) = rw (one_self b) (observer_added k _ _ here) in
    (
      update h b k',
      rw e refl,
      Changed-HeapOk _ _ ok (update-Changed h b k') (allocated ok e) after tt
          (λ c ne. (refl, elsewhere_added w b c ne)),
    )

dec_weak_count-Changed :
    (h : Heap) (b : ℕ) (k : Block)
    → h.block b ≡ live k
    → 0 < k.weak_count
    → (h' : Heap) × (dec_weak_count b h ≡ some h')
      × Changed h h' b (
          if k.weak_count == 1
          then deleted (record k { weak_count = k.weak_count - 1 })
          else live (record k { weak_count = k.weak_count - 1 }))
unfolding dec_weak_count destroy
dec_weak_count-Changed h b k e pos =
    let z : (k.weak_count == 0) ≡ false = ground arith in
    let k' = live (record k { weak_count = k.weak_count - 1 }) in
    let h1 = update h b k' in
    let u = update-Changed h b k' in
    elim (Bool-cases (k.weak_count == 1)) [
      | inl unique ↦ (
        update h1 b (deleted (record k { weak_count = k.weak_count - 1 })),
        rw e (rw z (rw unique (rw ((==_iff b b).1 refl) refl))),
        rw unique (
            Changed-trans b u
              (update-Changed h1 b (deleted (record k { weak_count = k.weak_count - 1 })))),
      )
      | inr many ↦ (h1, rw e (rw z (rw many refl)), rw many u)
    ]

pub dec_weak_count-Leaves :
    (h : Heap) (s w : ℕ → ℕ) (b : ℕ)
    → HeapOk h s w
    → 0 < w b
    → Leaves (dec_weak_count b h) s (λ c. w c - one b c)
dec_weak_count-Leaves h s w b ok pos =
    let (k, e, here) = held b ok (omega arith) in
    let counted : 0 < k.weak_count = ground (arith, here.1) in
    let (h', run, ch) = dec_weak_count-Changed h b k e counted in
    let k' =
      if k.weak_count == 1
      then deleted (record k { weak_count = k.weak_count - 1 })
      else live (record k { weak_count = k.weak_count - 1 }) in
    let there : Allocated k' = Allocated-if (k.weak_count == 1) _ _ in
    let after : BlockOk k' (s b) (w b - one b b) =
      rw (one_self b) (observer_removed k _ _ here pos) in
    (
      h',
      run,
      Changed-HeapOk _ _ ok ch (allocated ok e) after there
          (λ c ne. (refl, elsewhere_removed w b c ne)),
    )

pub dec_use_count-Leaves :
    (h : Heap) (s w : ℕ → ℕ) (b : ℕ)
    → HeapOk h s w
    → 0 < s b
    → Leaves (dec_use_count b h) (λ c. s c - one b c) w
unfolding dec_use_count dispose
dec_use_count-Leaves h s w b ok pos =
    let (k, e, here) = held b ok (omega arith) in
    let z : (k.use_count == 0) ≡ false = ground (arith, here.0) in
    let k1 = record k { use_count = k.use_count - 1 } in
    let h1 = update h b (live k1) in
    let left = update-Changed h b (live k1) in
    elim (Bool-cases (k.use_count == 1)) [
      | inl last ↦
          let single : s b ≡ 1 = ground (arith, here.0) in
          let k2 = record k1 { disposals = k.disposals + 1 } in
          let h2 = update h1 b (live k2) in
          let disposed = update-Changed h1 b (live k2) in
          let counted : 0 < k.weak_count = ground (arith, here.1, single) in
          let (h3, run, ch) = dec_weak_count-Changed h2 b k2 (disposed.1) counted in
          let k3 =
            if k.weak_count == 1
            then deleted (record k2 { weak_count = k.weak_count - 1 })
            else live (record k2 { weak_count = k.weak_count - 1 }) in
          let after : BlockOk k3 (s b - one b b) (w b) =
            rw (one_self b) (rw single (last_owner_removed k _ (rw single at here))) in
          (
            h3,
            rw e (rw z (rw last (rw ((==_iff b b).1 refl) run))),
            Changed-HeapOk _ _ ok (Changed-trans b left (Changed-trans b disposed ch))
                (allocated ok e) after (Allocated-if (k.weak_count == 1) _ _)
                (λ c ne. (elsewhere_removed s b c ne, refl)),
          )
      | inr more ↦
          let after : BlockOk (live k1) (s b - one b b) (w b) =
            rw (one_self b) (owner_removed k _ _ here (ground (arith, here.0))) in
          (
            h1,
            rw e (rw z (rw more refl)),
            Changed-HeapOk _ _ ok left (allocated ok e) after tt
                (λ c ne. (elsewhere_removed s b c ne, refl)),
          )
    ]

lock_loop_lem :
    (spurious : ℕ) (h : Heap) (s w : ℕ → ℕ) (b : ℕ) (k : Block)
    → HeapOk h s w
    → h.block b ≡ live k
    → BlockOk (live k) (s b) (w b)
    → ((s b ≡ 0) × (lock_loop spurious k.use_count b h ≡ some (false, h)))
      ⊎ ((0 < s b)
          × (h' : Heap) × (lock_loop spurious k.use_count b h ≡ some (true, h'))
          × HeapOk h' (λ c. s c + one b c) w)
unfolding lock_loop
lock_loop_lem zero h s w b k ok e here = elim (Bool-cases (k.use_count == 0)) [
  | inl z ↦ inl (ground (arith, here.0), rw z refl)
  | inr z ↦
      let pos : 0 < s b = ground (arith, here.0) in
      let k' = live (record k { use_count = k.use_count + 1 }) in
      let after : BlockOk k' (s b + one b b) (w b) = rw (one_self b) (owner_added k _ _ here pos) in
      inr (
        pos,
        update h b k',
        rw z (rw e refl),
        Changed-HeapOk _ _ ok (update-Changed h b k') (allocated ok e) after tt
            (λ c ne. (elsewhere_added s b c ne, refl)),
      )
]
lock_loop_lem (suc spurious) h s w b k ok e here = elim (Bool-cases (k.use_count == 0)) [
  | inl z ↦ inl (ground (arith, here.0), rw z refl)
  | inr z ↦ rw z (rw e (lock_loop_lem spurious h s w b k ok e here))
]

-- `lock_use_count` succeeds exactly when there is an owner, whatever the spurious failures.
pub lock_use_count_lem :
    (spurious : ℕ) (h : Heap) (s w : ℕ → ℕ) (b : ℕ)
    → HeapOk h s w
    → 0 < s b + w b
    → ((s b ≡ 0) × (lock_use_count spurious b h ≡ some (false, h)))
      ⊎ ((0 < s b)
          × (h' : Heap) × (lock_use_count spurious b h ≡ some (true, h'))
          × HeapOk h' (λ c. s c + one b c) w)
unfolding lock_use_count
lock_use_count_lem spurious h s w b ok pos =
    let (k, e, here) = held b ok pos in rw e (lock_loop_lem spurious h s w b k ok e here)

-- A new block has its creator as its owner.
pub new_block-Leaves :
    (h : Heap) (s w : ℕ → ℕ) (p : Option ℕ)
    → HeapOk h s w
    → (b : ℕ) × (h' : Heap) × (new_block p h ≡ (b, h')) × HeapOk h' (λ c. s c + one b c) w
unfolding new_block
new_block-Leaves h s w p ok =
    let (s0, w0) =
      subst (λ o. BlockOk o (s h.fresh) (w h.fresh)) (ok.unused h.fresh (omega arith))
        (ok.blocks h.fresh) in
    (
      h.fresh,
      _,
      refl,
      record {
        blocks = λ c. elim (Bool-cases (c == h.fresh)) [
          | inl e ↦
              rw e (rw ((==_iff c h.fresh).0 e) (rw s0 (rw w0 (refl, refl, refl, omega arith))))
          | inr e ↦ let z : s c + 0 ≡ s c = omega arith in rw e (rw z (ok.blocks c))
        ];
        used = λ c below. elim (Bool-cases (c == h.fresh)) [
          | inl e ↦ rw e tt
          | inr e ↦ rw e (ok.used c (ground arith))
        ];
        unused = λ c le.
            let ne : (c == h.fresh) ≡ false = ground arith in rw ne (ok.unused c (omega arith));
      },
    )
