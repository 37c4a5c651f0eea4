-- ===== src/Tests/Texts.antt =====
-- Texts for UUIDs that parse back: as many letters as the number says.
use Prim.Native.Nat.{ℕ, zero, suc}
use Prim.Native.String.{String, ◌∷◌, count}
use Prim.Native.String.count
use mathlib.Core.Path.{◌≡◌, ap, ◌∙◌}

pub text_of : ℕ → String
text_of zero = ""
text_of (suc n) = "a" ∷ text_of n

pub count-text_of : (n : ℕ) → count (text_of n) ≡ n
unfolding text_of
count-text_of zero = count.nil
count-text_of (suc n) = count.cons "a" (text_of n) ∙ ap suc (count-text_of n)
