-- ===== src/AddressBook/Notify.antt =====
-- `AddressBook::notify` of src/net/peers.rs: subscribers and what they are sent.
use ipfs_embed.Common.{
  Bool, true, false, ◌≡◌, refl, sym, ◌∙◌, List, [], ◌∷◌, ◌++◌, arith, map, filterb, ◌&&◌,
  if◌then◌else◌, ◌==◌, nat_eq, eqb_iff,
}
use mathlib.Core.List.{append_assoc, append-nil}
use ipfs_embed.Common.Assoc.{contains}
use ipfs_embed.Common.Distinct.{Distinct, Distinct-filterb, contains-filterb}
use ipfs_embed.Events.{Env, Event, Sender}
use ipfs_embed.AddressBook.{AddressBook, notify}

-- The events that one subscriber was sent, oldest first.
unfoldable pub inbox : Sender → List (Sender × Event) → List Event
inbox tx [] = []
inbox tx ((rx, e) ∷ rest) = let later = inbox tx rest in if rx == tx then e ∷ later else later

-- Events notified one after another, under an environment that does not change.
unfoldable pub notify_all : Env → List Event → AddressBook → AddressBook
notify_all env [] b = b
notify_all env (e ∷ es) b = notify_all env es (notify env e b)

inbox-append :
    (tx : Sender) (xs ys : List (Sender × Event)) → inbox tx (xs ++ ys) ≡ inbox tx xs ++ inbox tx ys
unfolding inbox
inbox-append tx [] ys = refl
inbox-append tx ((rx, e) ∷ xs) ys = ground (arith, inbox-append tx xs ys)

inbox-map :
    (tx : Sender) (e : Event) (live : List Sender)
    → Distinct live
    → inbox tx (map (λ rx. (rx, e)) live) ≡ (if contains tx live then e ∷ [] else [])
unfolding inbox contains
inbox-map tx e [] h = refl
inbox-map tx e (rx ∷ live) h = ground (arith, inbox-map tx e live h.1, eqb_iff rx tx)

inbox-notify :
    (env : Env) (tx : Sender) (e : Event) (b : AddressBook)
    → Distinct b.event_stream
    → inbox tx (notify env e b).sent
      ≡ inbox tx b.sent ++ (if env.alive tx && contains tx b.event_stream then e ∷ [] else [])
unfolding notify
inbox-notify env tx e b h = rw (
  inbox-append tx b.sent (map (λ rx. (rx, e)) (filterb env.alive b.event_stream)),
  inbox-map tx e (filterb env.alive b.event_stream) (Distinct-filterb env.alive b.event_stream h),
  contains-filterb env.alive tx b.event_stream,
)

append_if :
    (c : Bool) (xs es : List Event) (e : Event)
    → (xs ++ (if c then e ∷ [] else [])) ++ (if c then es else [])
      ≡ xs ++ (if c then e ∷ es else [])
append_if true xs es e = append_assoc xs (e ∷ []) es
append_if false xs es e = append-nil (xs ++ [])

if_nil : (c : Bool) (xs : List Event) → xs ≡ xs ++ (if c then [] else [])
if_nil true xs = sym (append-nil xs)
if_nil false xs = sym (append-nil xs)

listens-notify :
    (env : Env) (tx : Sender) (e : Event) (b : AddressBook)
    → (env.alive tx && contains tx (notify env e b).event_stream)
      ≡ (env.alive tx && contains tx b.event_stream)
unfolding notify
listens-notify env tx e b = ground (arith, contains-filterb env.alive tx b.event_stream)

-- Whatever is notified, in a book whose subscribers are distinct: each subscriber whose receiver
-- lives is sent exactly these events, in order, after what it was sent before; nobody else is sent
-- anything.
pub inbox-notify_all :
    (env : Env) (tx : Sender) (es : List Event) (b : AddressBook)
    → Distinct b.event_stream
    → inbox tx (notify_all env es b).sent
      ≡ inbox tx b.sent ++ (if env.alive tx && contains tx b.event_stream then es else [])
unfolding notify_all
inbox-notify_all env tx [] b h = if_nil _ (inbox tx b.sent)
inbox-notify_all env tx (e ∷ es) b h =
    inbox-notify_all env tx es (notify env e b)
      (unfold notify in Distinct-filterb env.alive b.event_stream h)
    ∙ rw (inbox-notify env tx e b h, listens-notify env tx e b)
        (append_if (env.alive tx && contains tx b.event_stream) (inbox tx b.sent) es e)
