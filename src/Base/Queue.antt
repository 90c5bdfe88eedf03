-- ===== src/Base/Queue.antt =====
-- A receiving end of a queue or a socket that keeps what it is sent, in order, and is gone after so
-- many: what senders are run against.
use Prim.Native.Nat.{ℕ, zero, suc}
use mathlib.Core.Bool.{Bool, true, false}
use mathlib.Core.List.{List, [], ◌∷◌, ◌++◌}

abbrev pub into : {A : Type 0} → A → List A × ℕ → Bool × (List A × ℕ)
into a (kept, zero) = (false, (kept, zero))
into a (kept, suc n) = (true, (kept ++ a ∷ [], n))
