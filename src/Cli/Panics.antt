-- ===== src/Cli/Panics.antt =====
-- When reading a line panics: `parts.next().unwrap()` on a line that ends too early.
use ipfs_embed.Common.{
  Bool, true, false, ℕ, ◌≤◌, ◌≡◌, refl, ◌≢◌, Option, none, some, List, [], ◌∷◌, ◌++◌, ◌==◌,
  if◌then◌else◌, arith, length,
}
use ipfs_embed.Cli.Words.{
  IsWord, Text, codes, text_eq, split_whitespace, split_whitespace-nil, split_whitespace-word,
  is_whitespace,
}
use ipfs_embed.Cli.Hex.{show_hex}
use ipfs_embed.Cli.{
  Parsed, ok, failed, panicked, parse_one, parse_two, parse_block, Formats, IsFormats, try, ◌>>=◌,
}
use ipfs_embed.Cli.Hex.{read_hex}
use ipfs_embed.Behaviour.{Cid}
use ipfs_embed.Cli.Event
use ipfs_embed.Cli.Command
use ipfs_embed.Cli.Command.{parse_alias, parse_command, parse_optional}

-- How many words a keyword's arm takes without asking whether they are there.
abbrev pub needed : Text → ℕ
needed k =
    if k == codes ">add-address"
    then 2
    else if k == codes ">dial"
    then 1
    else if k == codes ">prune-peers"
    then 0
    else if k == codes ">get"
    then 1
    else if k == codes ">insert"
    then 2
    else if k == codes ">alias"
    then 1
    else if k == codes ">flush"
    then 0
    else if k == codes ">sync"
    then 1
    else 0

failed-safe {ℓ} : {A : Type ℓ} → ◌≢◌ {A = Parsed A} failed panicked
failed-safe = ground arith

ok-safe {ℓ} : {A : Type ℓ} (a : A) → ok a ≢ panicked
ok-safe a = ground arith

try-safe {ℓ} : {A : Type ℓ} (o : Option A) → try o ≢ panicked
try-safe none = failed-safe
try-safe (some a) = ok-safe a

-- What goes on after an answer that is no panic.
then-safe {ℓ κ} :
    {A : Type ℓ} {B : Type κ} (o : Option A) (k : A → Parsed B)
    → ((a : A) → k a ≢ panicked)
    → (try o >>= k) ≢ panicked
then-safe none k g = failed-safe
then-safe (some a) k g = g a

-- Reading one word and going on.
first-safe {ℓ κ} :
    {A : Type ℓ} {B : Type κ} (o : Option A) (parts : List Text) (k : A × List Text → Parsed B)
    → ((a : A) → k (a, parts) ≢ panicked)
    → ((try o >>= λ a. ok (a, parts)) >>= k) ≢ panicked
first-safe none parts k g = failed-safe
first-safe (some a) parts k g = g a

bind-safe {ℓ κ} :
    {A : Type ℓ} {B : Type κ} (m : Parsed A) (f : A → B)
    → m ≢ panicked
    → (m >>= λ a. ok (f a)) ≢ panicked
bind-safe (ok a) f h = ok-safe (f a)
bind-safe failed f h = failed-safe
bind-safe panicked f h = absurd (h refl)

arm-safe {ℓ} :
    {A : Type ℓ} (b : Bool) (n m have : ℕ) (x y : Parsed A)
    → (n ≤ have → x ≢ panicked)
    → (m ≤ have → y ≢ panicked)
    → (if b then n else m) ≤ have
    → (if b then x else y) ≢ panicked
arm-safe true n m have x y hx hy h = hx h
arm-safe false n m have x y hx hy h = hy h

one-safe {ℓ κ} :
    {A : Type ℓ} {B : Type κ} (read : Text → Option A) (f : A → B) (parts : List Text)
    → 1 ≤ length parts
    → parse_one read f parts ≢ panicked
one-safe read f [] h = absurd (omega arith)
one-safe read f (w ∷ parts) h = first-safe (read w) parts (λ a. ok (f a.0)) (λ a. ok-safe (f a))

two-safe {ℓ κ} :
    {A : Type ℓ} {B : Type ℓ} {C : Type κ} (read_a : Text → Option A) (read_b : Text → Option B)
    (f : A → B → C) (parts : List Text)
    → 2 ≤ length parts
    → parse_two read_a read_b f parts ≢ panicked
two-safe read_a read_b f [] h = absurd (omega arith)
two-safe read_a read_b f (v ∷ []) h = absurd (omega arith)
two-safe read_a read_b f (v ∷ w ∷ parts) h =
    first-safe (read_a v) (w ∷ parts) _
      (λ a. first-safe (read_b w) parts (λ b. ok (f a b.0)) (λ b. ok-safe (f a b)))

module _ (f : Formats) where
  block-safe : (parts : List Text) → 2 ≤ length parts → parse_block f parts ≢ panicked
  block-safe [] h = absurd (omega arith)
  block-safe (v ∷ []) h = absurd (omega arith)
  block-safe (v ∷ w ∷ parts) h = first-safe (f.read_cid v) (w ∷ parts) _ (λ cid.
      then-safe (read_hex w) (λ bytes. try (f.new_block cid bytes))
        (λ bytes. try-safe (f.new_block cid bytes)))

  optional_safe :
      (o : Option Cid) (w : Text)
      → ((try o >>= λ a. ok (some a)) >>= λ cid. ok (Command.Command.alias w cid)) ≢ panicked
  optional_safe none w = failed-safe
  optional_safe (some c) w = ok-safe (Command.Command.alias w (some c))

  alias-safe : (parts : List Text) → 1 ≤ length parts → parse_alias f parts ≢ panicked
  alias-safe [] h = absurd (omega arith)
  alias-safe (w ∷ []) h = ground arith
  alias-safe (w ∷ v ∷ parts) h = optional_safe (f.read_cid v) w

  insert-safe :
      (parts : List Text)
      → 2 ≤ length parts
      → (parse_block f parts >>= λ b. ok (Command.Command.insert b)) ≢ panicked
  insert-safe parts h = bind-safe (parse_block f parts) Command.Command.insert (block-safe parts h)

  parse_command-safe :
      (k : Text) (parts : List Text)
      → needed k ≤ length parts
      → parse_command f (k ∷ parts) ≢ panicked
  parse_command-safe k parts =
      arm-safe _ _ _ (length parts) _ _
        (two-safe f.read_peer f.read_addr Command.Command.add_address parts)
        (arm-safe _ _ _ (length parts) _ _ (one-safe f.read_peer Command.Command.dial parts) (
          arm-safe _ _ _ (length parts) _ _ (λ _. ok-safe Command.Command.prune_peers)
            (arm-safe _ _ _ (length parts) _ _ (one-safe f.read_cid Command.Command.get parts) (
              arm-safe _ _ _ (length parts) _ _ (insert-safe parts) (
                arm-safe _ _ _ (length parts) _ _ (alias-safe parts) (
                  arm-safe _ _ _ (length parts) _ _ (λ _. ok-safe Command.Command.flush)
                    (arm-safe _ _ _ (length parts) _ _
                      (one-safe f.read_cid Command.Command.sync parts) (λ _. failed-safe))))))))

  words_safe :
      (words : List Text)
      → ((k : Text) (parts : List Text) → words ≡ k ∷ parts → needed k ≤ length parts)
      → parse_command f words ≢ panicked
  words_safe [] h = failed-safe
  words_safe (k ∷ parts) h = parse_command-safe k parts (h k parts refl)

  -- A line reads without a panic when at least as many words follow its keyword as the keyword needs;
  -- a line with no word at all, or an unknown keyword, never panics.
  pub from_str-safe :
      (s : Text)
      → ((k : Text) (parts : List Text) → split_whitespace s ≡ k ∷ parts → needed k ≤ length parts)
      → Command.from_str f s ≢ panicked
  unfolding Command.from_str
  from_str-safe s h = words_safe (split_whitespace s) h

  -- What is printed of a block without data ends after its `Cid`.
  no_data :
      (k : Text) (cid : ℕ)
      → IsFormats f
      → IsWord k
      → split_whitespace (k ++ (b' ' ∷ (f.show_cid cid ++ (b' ' ∷ [])))) ≡ k ∷ f.show_cid cid ∷ []
  no_data k cid l h =
      rw
        (
          split_whitespace-word k (f.show_cid cid ++ (b' ' ∷ [])) h,
          split_whitespace-word (f.show_cid cid) [] (l.cid_word cid),
          split_whitespace-nil,
        )
        refl

  -- The lines printed for a block without data, of the command that inserts it and of the event that
  -- shows it, both panic when they are read, whatever its `Cid`.
  pub from_str-empty_block :
      IsFormats f
      → (cid : ℕ)
      → (Command.from_str f
            (Command.show f (Command.Command.insert (record { cid = cid; bytes = [] })))
          ≡ panicked)
        × (Event.from_str f (Event.show f (Event.Event.block (record { cid = cid; bytes = [] })))
            ≡ panicked)
  unfolding Command.from_str Command.show Event.from_str Event.show is_whitespace show_hex
  from_str-empty_block l cid = (
    rw (no_data (codes ">insert") cid l (refl, refl), l.cid_back cid) refl,
    rw (no_data (codes "<block") cid l (refl, refl), l.cid_back cid) refl,
  )
