-- ===== src/Conversation/Streams.antt =====
-- Prefixes, of repeated messages and of what a session passes on.
use snippets_cc.Asio.{Operation, no_operation, receiving, writing, Owes}
use snippets_cc.Conversation.{IsPrefix, in_flight}
use snippets_cc.Prelude.{
  ℕ, zero, suc, ◌≡◌, sym, ap, ◌∙◌, List, [], ◌∷◌, ◌++◌, length, take, take-append, append_assoc,
  append-nil,
}

-- `message`, `n` times.
unfoldable pub repeat : ℕ → List ℕ → List ℕ
repeat zero message = []
repeat (suc n) message = message ++ repeat n message

pub repeat-suc : (n : ℕ) (message : List ℕ) → repeat (suc n) message ≡ repeat n message ++ message
unfolding repeat
repeat-suc zero message = append-nil message
repeat-suc (suc n) message =
    ap (message ++◌) (repeat-suc n message) ∙ sym (append_assoc message (repeat n message) message)

pub append_cancel_left : (xs : List ℕ) {ys zs : List ℕ} → xs ++ ys ≡ xs ++ zs → ys ≡ zs
append_cancel_left [] e = e
append_cancel_left (x ∷ xs) e = append_cancel_left xs (cc)

-- Two first parts of one list that are as long are equal.
pub same_prefix : (xs ys zs ws : List ℕ) → length xs ≡ length ys → xs ++ zs ≡ ys ++ ws → xs ≡ ys
same_prefix xs ys zs ws e h =
    sym (take-append xs zs)
    ∙ ap (λ n. take n (xs ++ zs)) e
    ∙ ap (take (length ys)) h
    ∙ take-append ys ws

-- What the server has answered is the first part of what it has received.
pub answered-IsPrefix :
    (o : Operation) (received sent buffer : List ℕ)
    → Owes o received sent buffer
    → IsPrefix (sent ++ in_flight o buffer) received
answered-IsPrefix no_operation received sent buffer (rest, e) =
    (rest, ap (λ xs. xs ++ rest) (append-nil sent) ∙ sym e)
answered-IsPrefix receiving received sent buffer e = ([], append-nil _ ∙ append-nil sent ∙ sym e)
answered-IsPrefix (writing n) received sent buffer e = ([], append-nil _ ∙ sym e)

pub IsPrefix-trans : (xs ys zs : List ℕ) → IsPrefix xs ys → IsPrefix ys zs → IsPrefix xs zs
IsPrefix-trans xs ys zs (r, e) (q, f) =
    (r ++ q, sym (append_assoc xs r q) ∙ ap (λ us. us ++ q) e ∙ f)

pub IsPrefix-append : (xs ys zs : List ℕ) → IsPrefix xs ys → IsPrefix xs (ys ++ zs)
IsPrefix-append xs ys zs (r, e) = (r ++ zs, sym (append_assoc xs r zs) ∙ ap (λ us. us ++ zs) e)
