-- ===== src/Cli/Words.antt =====
-- Texts as their Unicode scalar values, and `str::split_whitespace`.
use Prim.Native.Char.{code}
use Prim.Native.String.{String}
use mathlib.Core.Bool.{false≢true}
use ipfs_embed.Common.{
  ℕ, ◌≡◌, refl, Bool, true, false, not, ◌&&◌, ◌||◌, List, [], ◌∷◌, ◌++◌, HasEq, ◌↔◌, arith, leb,
  eqb, if◌then◌else◌, filterb, is_empty, sym,
}

abbrev pub Text : Type 0
Text = List ℕ

abbrev pub codes : String → Text
codes String.[] = []
codes (String.◌∷◌ c s) = code c ∷ codes s

abbrev same : Text → Text → Bool
same [] [] = true
same (a ∷ s) (b ∷ t) = eqb a b && same s t
same _ _ = false

pub same_iff : (s t : Text) → (same s t ≡ true) ↔ (s ≡ t)
same_iff [] [] = (λ _. refl, λ _. refl)
same_iff [] (b ∷ t) = ground arith
same_iff (a ∷ s) [] = ground arith
same_iff (a ∷ s) (b ∷ t) = ground (arith, same_iff s t)

instance abbrev pub text_eq : HasEq Text
text_eq = record { beq = same; beq_iff = same_iff }

abbrev pub between : ℕ → ℕ → ℕ → Bool
between lo hi c = leb lo c && leb c hi

-- `char::is_whitespace`, the property White_Space.
unfoldable pub is_whitespace : ℕ → Bool
is_whitespace c =
    between 9 13 c
    || eqb c 32
    || eqb c 133
    || eqb c 160
    || eqb c 5760
    || between 8192 8202 c
    || between 8232 8233 c
    || eqb c 8239
    || eqb c 8287
    || eqb c 12288

abbrev pub extend_first : ℕ → List Text → List Text
extend_first c [] = (c ∷ []) ∷ []
extend_first c (w ∷ ws) = (c ∷ w) ∷ ws

-- `split(char::is_whitespace)`
unfoldable pub split : Text → List Text
split [] = [] ∷ []
split (c ∷ s) = let rest = split s in if is_whitespace c then [] ∷ rest else extend_first c rest

unfoldable pub split_whitespace : Text → List Text
split_whitespace s = filterb (λ w. not (is_empty w)) (split s)

-- `parts.collect::<Vec<_>>().join(" ")`
unfoldable pub join : List Text → Text
join [] = []
join (w ∷ []) = w
join (w ∷ v ∷ ws) = w ++ (b' ' ∷ join (v ∷ ws))

abbrev pub no_space : Text → Bool
no_space [] = true
no_space (c ∷ s) = not (is_whitespace c) && no_space s

-- A text that `split_whitespace` gives back whole.
abbrev pub IsWord : Text → Type 0
IsWord w = (is_empty w ≡ false) × (no_space w ≡ true)

space : is_whitespace b' ' ≡ true
unfolding is_whitespace
space = refl

no_space-first : (b c : Bool) → not b && c ≡ true → (b ≡ false) × (c ≡ true)
no_space-first true c h = absurd (false≢true h)
no_space-first false c h = (refl, h)

split-no_space : (w s : Text) → no_space w ≡ true → split (w ++ (b' ' ∷ s)) ≡ w ∷ split s
unfolding split
split-no_space [] s h = rw space refl
split-no_space (c ∷ w) s h =
    let p = no_space-first (is_whitespace c) (no_space w) h in rw (p.0, split-no_space w s p.1) refl

split-no_space_end : (w : Text) → no_space w ≡ true → split w ≡ w ∷ []
unfolding split
split-no_space_end [] h = refl
split-no_space_end (c ∷ w) h =
    let p = no_space-first (is_whitespace c) (no_space w) h in
    rw (p.0, split-no_space_end w p.1) refl

keep_word :
    (w : Text) (ws : List Text)
    → is_empty w ≡ false
    → filterb (λ w. not (is_empty w)) (w ∷ ws) ≡ w ∷ filterb (λ w. not (is_empty w)) ws
keep_word [] ws h = absurd (false≢true (sym h))
keep_word (c ∷ w) ws h = refl

pub split_whitespace-word :
    (w s : Text) → IsWord w → split_whitespace (w ++ (b' ' ∷ s)) ≡ w ∷ split_whitespace s
unfolding split_whitespace
split_whitespace-word w s h = rw (split-no_space w s h.1) (keep_word w (split s) h.0)

pub split_whitespace-last : (w : Text) → IsWord w → split_whitespace w ≡ w ∷ []
unfolding split_whitespace
split_whitespace-last w h = rw (split-no_space_end w h.1) (keep_word w [] h.0)

pub split_whitespace-nil : split_whitespace [] ≡ []
unfolding split_whitespace split
split_whitespace-nil = refl

-- A word after a word and a space, the end of most lines.
pub split_whitespace-two :
    (v w : Text) → IsWord v → IsWord w → split_whitespace (v ++ (b' ' ∷ w)) ≡ v ∷ w ∷ []
split_whitespace-two v w hv hw = cc (split_whitespace-word v w hv, split_whitespace-last w hw)
