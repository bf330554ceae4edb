-- ===== src/Daytime/RoundTrip.antt =====
-- asio/socket/01/main.cc and 02/main.cc: what a client prints of what the server writes.
use snippets_cc.Prelude.{
  ℕ, zero, suc, ◌+◌, ◌<◌, ◌≡◌, sym, ap, ◌∙◌, Bool, true, false, Option, none, some, List, [], ◌∷◌,
  ◌++◌, if◌then◌else◌, leb, length, get_elem?, take, drop, take-drop, length-drop, All, append-nil,
  append_assoc, none≢some, arith,
}
use mathlib.Core.Option.{some-injective}
use snippets_cc.Daytime.Blocking.{
  Stream, Accept, accepted, accept_failed, write, serve, buffer_size, read_some, Exit, returned,
  exception, receive,
}

-- How the loop of the client ends.
abbrev exit_of : Bool → Exit
exit_of true = exception
exit_of false = returned

-- Each call of `read_some` takes at least one byte of what is left.
receive-all :
    (reads : List ℕ) (bytes : List ℕ) (broken : Bool) (printed : List ℕ)
    → length bytes < length reads
    → receive reads (record { bytes = bytes; is_broken = broken }) printed
      ≡ record { printed = printed ++ bytes; exit = exit_of broken }
unfolding receive read_some
receive-all [] bytes broken printed lt = absurd (omega arith)
receive-all (more ∷ reads) [] true printed lt =
    ap (λ out. record { printed = out; exit = exception }) (sym (append-nil printed))
receive-all (more ∷ reads) [] false printed lt =
    ap (λ out. record { printed = out; exit = returned }) (sym (append-nil printed))
receive-all (more ∷ reads) (byte ∷ rest) broken printed lt =
    let count : ℕ = if leb buffer_size more then buffer_size else more + 1 in
    let pos : 0 < count = ground arith in
    receive-all reads (drop count (byte ∷ rest)) broken (printed ++ take count (byte ∷ rest))
      (omega (arith, pos, lt, length-drop count (byte ∷ rest)))
    ∙ ap (λ out. record { printed = out; exit = exit_of broken })
        (append_assoc printed (take count (byte ∷ rest)) (drop count (byte ∷ rest))
          ∙ ap (printed ++◌) (take-drop count (byte ∷ rest)))

abbrev pub IsAccepted : Accept → Type 0
IsAccepted (accepted daytime fault) = Unit {0}
IsAccepted accept_failed = ⊥

-- The stream of the client that is accepted in call `j`.
serve-get :
    (calls : List Accept) (j : ℕ) (daytime : List ℕ) (fault : Option (ℕ × Bool))
    → get_elem? calls j ≡ some (accepted daytime fault)
    → All IsAccepted (take j calls)
    → get_elem? (serve calls).0 j ≡ some (write daytime fault)
unfolding serve
serve-get [] j daytime fault at_j before = absurd (none≢some at_j)
serve-get (accepted d f ∷ calls) zero daytime fault at_j before =
    ap some (cc (some-injective _ _ at_j))
serve-get (accept_failed ∷ calls) zero daytime fault at_j before =
    absurd (cc (some-injective _ _ at_j))
serve-get (accepted d f ∷ calls) (suc j) daytime fault at_j before =
    serve-get calls j daytime fault at_j before.1
serve-get (accept_failed ∷ calls) (suc j) daytime fault at_j before = absurd before.0

-- If no accept has failed before that of a client to which the server writes its whole daytime, then, whatever the faults
-- of the writes to the others, and in whatever pieces the bytes arrive, the client ends by itself and has printed exactly that
-- daytime, after at most one more read than it has bytes.
pub receive-serve :
    (calls : List Accept) (j : ℕ) (daytime : List ℕ) (reads : List ℕ)
    → get_elem? calls j ≡ some (accepted daytime none)
    → All IsAccepted (take j calls)
    → length daytime < length reads
    → (s : Stream) × (get_elem? (serve calls).0 j ≡ some s)
      × (receive reads s [] ≡ record { printed = daytime; exit = returned })
unfolding write
receive-serve calls j daytime reads at_j before enough = (
  write daytime none,
  serve-get calls j daytime none at_j before,
  receive-all reads daytime false [] enough,
)
