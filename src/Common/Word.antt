-- ===== src/Common/Word.antt =====
-- `uint32_t` values as numbers below 2 ^ 32 with their wrap-around written out, and their bytes in
-- memory, lowest first.
use qoraal_flash.Common.Lists.{length, All, get_or, drop}
use Prim.Native.Nat.{ℕ, zero, suc, ◌+◌, ◌-◌, ◌*◌, ◌/◌, ◌%◌, ◌^◌, ◌<◌}
use qoraal_flash.Common.Tests.{if◌then◌else◌, ltb}
use mathlib.Core.Path.{◌≡◌, refl, ap, ◌∙◌}
use mathlib.Core.List.{List, [], ◌∷◌, ◌++◌}
use native.Mathlib.Omega.{arith}

abbrev pub u32_mod : ℕ
u32_mod = 2 ^ 32

abbrev pub uint32_max : ℕ
uint32_max = 0xffff_ffff

abbrev pub add32 : ℕ → ℕ → ℕ
add32 a b = (a + b) % u32_mod

abbrev pub sub32 : ℕ → ℕ → ℕ
sub32 a b = (a + u32_mod - b) % u32_mod

abbrev pub mul32 : ℕ → ℕ → ℕ
mul32 a b = (a * b) % u32_mod

-- The bytes of a word, and of a sequence of words, as a packed structure lies in memory.
abbrev pub u32_bytes : ℕ → List ℕ
u32_bytes w = w % 256 ∷ (w / 256) % 256 ∷ (w / 65536) % 256 ∷ (w / 16777216) % 256 ∷ []

abbrev pub u32_of : ℕ → ℕ → ℕ → ℕ → ℕ
u32_of a b c d = a + b * 256 + c * 65536 + d * 16777216

unfoldable pub words_bytes : List ℕ → List ℕ
words_bytes [] = []
words_bytes (w ∷ ws) = u32_bytes w ++ words_bytes ws

-- The first `n` words of a buffer; a byte past its end reads as 0xFF, with which the code fills a
-- header before it reads one.
unfoldable pub bytes_words : ℕ → List ℕ → List ℕ
bytes_words zero bs = []
bytes_words (suc n) bs =
    u32_of (get_or bs 0 255) (get_or bs 1 255) (get_or bs 2 255) (get_or bs 3 255)
    ∷ bytes_words n (drop 4 bs)

abbrev pub IsWord : ℕ → Type 0
IsWord w = w < u32_mod

u32_of-bytes :
    (w : ℕ)
    → IsWord w
    → u32_of (w % 256) ((w / 256) % 256) ((w / 65536) % 256) ((w / 16777216) % 256) ≡ w
u32_of-bytes w h = omega arith

pub bytes_words-words_bytes :
    (ws rest : List ℕ) → All IsWord ws → bytes_words (length ws) (words_bytes ws ++ rest) ≡ ws
unfolding bytes_words words_bytes
bytes_words-words_bytes [] rest h = refl
bytes_words-words_bytes (w ∷ ws) rest h =
    ap (λ v. v ∷ bytes_words (length ws) (words_bytes ws ++ rest)) (u32_of-bytes w h.0)
    ∙ ap (λ vs. w ∷ vs) (bytes_words-words_bytes ws rest h.1)

pub length-words_bytes : (ws : List ℕ) → length (words_bytes ws) ≡ 4 * length ws
unfolding words_bytes
length-words_bytes [] = refl
length-words_bytes (w ∷ ws) = omega (arith, length-words_bytes ws)

pub words_bytes-All : (ws : List ℕ) → All (λ b. b < 256) (words_bytes ws)
unfolding words_bytes
words_bytes-All [] = tt
words_bytes-All (w ∷ ws) =
    (omega arith, (omega arith, (omega arith, (omega arith, words_bytes-All ws))))

-- `negsuc n` is -(n + 1).
pub data ℤ : Type 0 where
  pos : ℕ → ℤ
  negsuc : ℕ → ℤ

-- `(int32_t)w`
unfoldable pub int32_of : ℕ → ℤ
int32_of w = if ltb w (2 ^ 31) then pos w else negsuc (u32_mod - w - 1)
