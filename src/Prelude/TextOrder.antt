-- ===== src/Prelude/TextOrder.antt =====
-- The order of texts is a strict total order.
use Prim.Native.String.{String}
use Prim.Native.Char.{code}
use mathlib.Core.Path.{◌≡◌, refl, ap₂}
use mathlib.Core.Bool.{true, false}
use text.Mathlib.TextEquality.{Char-path}
use native.Mathlib.Omega.{arith}
use kanban_store.Prelude.Text.{text_lt}

pub text_lt_asym : (a b : String) → text_lt a b ≡ true → text_lt b a ≡ false
unfolding text_lt
text_lt_asym String.[] String.[] h = absurd (ground arith)
text_lt_asym (String.◌∷◌ c a) String.[] h = absurd (ground arith)
text_lt_asym String.[] (String.◌∷◌ d b) h = refl
text_lt_asym (String.◌∷◌ c a) (String.◌∷◌ d b) h = ground (arith, text_lt_asym a b)

pub text_lt_step :
    (a b e : String) → text_lt a b ≡ false → text_lt b e ≡ false → text_lt a e ≡ false
unfolding text_lt
text_lt_step a b String.[] h k = refl
text_lt_step a String.[] (String.◌∷◌ x e) h k = absurd (ground arith)
text_lt_step String.[] (String.◌∷◌ d b) (String.◌∷◌ x e) h k = absurd (ground arith)
text_lt_step (String.◌∷◌ c a) (String.◌∷◌ d b) (String.◌∷◌ x e) h k =
    ground (arith, text_lt_step a b e)

pub text_lt_antisym : (a b : String) → text_lt a b ≡ false → text_lt b a ≡ false → a ≡ b
unfolding text_lt
text_lt_antisym String.[] String.[] h k = refl
text_lt_antisym (String.◌∷◌ c a) String.[] h k = absurd (ground arith)
text_lt_antisym String.[] (String.◌∷◌ d b) h k = absurd (ground arith)
text_lt_antisym (String.◌∷◌ c a) (String.◌∷◌ d b) h k =
    let same : code c ≡ code d = ground arith in
    let rest : a ≡ b = text_lt_antisym a b (ground arith) (ground arith) in
    ap₂ String.◌∷◌ (Char-path c d same) rest
