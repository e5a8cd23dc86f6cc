-- ===== src/Cli/Lines.antt =====
-- The words of the lines that are printed.
use ipfs_embed.Common.{ℕ, ◌≡◌, refl, List, [], ◌∷◌, ◌++◌, All, ◌≢◌, ◌∙◌, ap}
use ipfs_embed.Cli.Words.{
  Text, IsWord, split_whitespace, split_whitespace-word, split_whitespace-two,
}
use ipfs_embed.Cli.Hex.{show_hex, show_hex-IsWord, IsByte}

pub show_hex-IsWord_nonempty :
    (bytes : List ℕ) → All IsByte bytes → bytes ≢ [] → IsWord (show_hex bytes)
show_hex-IsWord_nonempty [] h n = absurd (n refl)
show_hex-IsWord_nonempty (b ∷ bytes) h n = show_hex-IsWord b bytes h

pub keyword_one :
    (k w : Text) → IsWord k → IsWord w → split_whitespace (k ++ (b' ' ∷ w)) ≡ k ∷ w ∷ []
keyword_one k w hk hw = split_whitespace-two k w hk hw

pub keyword_two :
    (k v w : Text)
    → IsWord k
    → IsWord v
    → IsWord w
    → split_whitespace (k ++ (b' ' ∷ (v ++ (b' ' ∷ w)))) ≡ k ∷ v ∷ w ∷ []
keyword_two k v w hk hv hw =
    split_whitespace-word k (v ++ (b' ' ∷ w)) hk ∙ ap (◌∷◌ k) (split_whitespace-two v w hv hw)

pub keyword_rest :
    (k v s : Text)
    → IsWord k
    → IsWord v
    → split_whitespace (k ++ (b' ' ∷ (v ++ (b' ' ∷ s)))) ≡ k ∷ v ∷ split_whitespace s
keyword_rest k v s hk hv =
    split_whitespace-word k (v ++ (b' ' ∷ s)) hk ∙ ap (◌∷◌ k) (split_whitespace-word v s hv)
