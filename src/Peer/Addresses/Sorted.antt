-- ===== src/Peer/Addresses/Sorted.antt =====
-- The addresses that a peer hands on.
use pokoinpos.Prelude.{◌≡◌, true, false, List, [], ◌∷◌, map, if-holds, All, Bool-cases, inl, inr}
use pokoinpos.Text.{Text, text_eq, text_ltb}
use pokoinpos.Text.Order.{text_ltb_asymm}
use pokoinpos.GoMap.{Map, insert}
use pokoinpos.Peer.{PeerAddress}
use pokoinpos.Peer.Addresses.{is_usable, see_addresses, insert_by, sort_by, unique_peer_addresses}

-- No id comes after one that is larger.
abbrev pub InOrder : List PeerAddress → Type 0
InOrder [] = Unit
InOrder (a ∷ []) = Unit
InOrder (a ∷ b ∷ rest) = (text_ltb b.id a.id ≡ false) × InOrder (b ∷ rest)

abbrev by_id : PeerAddress → Text
by_id a = a.id

-- A list that can follow an address.
abbrev Follows : PeerAddress → List PeerAddress → Type 0
Follows a [] = Unit
Follows a (b ∷ rest) = text_ltb b.id a.id ≡ false

cons-InOrder : (a : PeerAddress) (l : List PeerAddress) → Follows a l → InOrder l → InOrder (a ∷ l)
cons-InOrder a [] f h = tt
cons-InOrder a (b ∷ rest) f h = (f, h)

insert_by-Follows :
    (b a : PeerAddress) (l : List PeerAddress)
    → text_ltb a.id b.id ≡ false
    → Follows b l
    → Follows b (insert_by by_id a l)
unfolding insert_by
insert_by-Follows b a [] ge f = ge
insert_by-Follows b a (c ∷ rest) ge f =
    if-holds (Follows b) (text_ltb a.id c.id) (a ∷ c ∷ rest) (c ∷ insert_by by_id a rest) ge f

follows : (b : PeerAddress) (l : List PeerAddress) → InOrder (b ∷ l) → Follows b l
follows b [] h = tt
follows b (c ∷ rest) h = h.0

tail-InOrder : (b : PeerAddress) (l : List PeerAddress) → InOrder (b ∷ l) → InOrder l
tail-InOrder b [] h = tt
tail-InOrder b (c ∷ rest) h = h.1

insert_by-InOrder :
    (a : PeerAddress) (l : List PeerAddress) → InOrder l → InOrder (insert_by by_id a l)
unfolding insert_by
insert_by-InOrder a [] h = tt
insert_by-InOrder a (b ∷ rest) h = elim (Bool-cases (text_ltb a.id b.id)) [
  | inl lt ↦ rw lt (text_ltb_asymm a.id b.id lt, h)
  | inr ge ↦ rw ge (
      cons-InOrder b (insert_by by_id a rest) (insert_by-Follows b a rest ge (follows b rest h))
        (insert_by-InOrder a rest (tail-InOrder b rest h)))
]

sort_by-InOrder : (l : List PeerAddress) → InOrder (sort_by by_id l)
unfolding sort_by
sort_by-InOrder [] = tt
sort_by-InOrder (a ∷ rest) = insert_by-InOrder a (sort_by by_id rest) (sort_by-InOrder rest)

insert_by-All :
    (P : PeerAddress → Type 0) (a : PeerAddress) (l : List PeerAddress)
    → P a
    → All P l
    → All P (insert_by by_id a l)
unfolding insert_by
insert_by-All P a [] p h = (p, tt)
insert_by-All P a (b ∷ rest) p (q, h) =
    if-holds (All P) (text_ltb a.id b.id) (a ∷ b ∷ rest) (b ∷ insert_by by_id a rest) (p, (q, h))
      (q, insert_by-All P a rest p h)

sort_by-All : (P : PeerAddress → Type 0) (l : List PeerAddress) → All P l → All P (sort_by by_id l)
unfolding sort_by
sort_by-All P [] h = tt
sort_by-All P (a ∷ rest) (p, h) = insert_by-All P a (sort_by by_id rest) p (sort_by-All P rest h)

-- An address that can be dialled.
abbrev pub IsUsable : PeerAddress → Type 0
IsUsable a = is_usable a ≡ true

insert-IsUsable :
    (a : PeerAddress) (seen : Map PeerAddress)
    → IsUsable a
    → All IsUsable (map (λ e. e.1) seen)
    → All IsUsable (map (λ e. e.1) (insert a.id a seen))
unfolding insert
insert-IsUsable a [] u h = (u, tt)
insert-IsUsable a (e ∷ seen) u (v, h) =
    if-holds (λ m. All IsUsable (map (λ e. e.1) m)) (text_eq e.0 a.id) ((e.0, a) ∷ seen)
      (e ∷ insert a.id a seen) (u, h) (v, insert-IsUsable a seen u h)

see_addresses-IsUsable :
    (addresses : List PeerAddress) (seen : Map PeerAddress)
    → All IsUsable (map (λ e. e.1) seen)
    → All IsUsable (map (λ e. e.1) (see_addresses addresses seen))
unfolding see_addresses
see_addresses-IsUsable [] seen h = h
see_addresses-IsUsable (a ∷ rest) seen h = elim (Bool-cases (is_usable a)) [
  | inl u ↦ rw u (see_addresses-IsUsable rest (insert a.id a seen) (insert-IsUsable a seen u h))
  | inr n ↦ rw n (see_addresses-IsUsable rest seen h)
]

-- The addresses that uniquePeerAddresses returns can all be dialled, and none comes after one with a
-- larger id.
pub unique_peer_addresses-InOrder :
    (addresses : List PeerAddress)
    → InOrder (unique_peer_addresses addresses) × All IsUsable (unique_peer_addresses addresses)
unfolding unique_peer_addresses
unique_peer_addresses-InOrder addresses = (
  sort_by-InOrder (map (λ e. e.1) (see_addresses addresses [])),
  sort_by-All IsUsable (map (λ e. e.1) (see_addresses addresses []))
      (see_addresses-IsUsable addresses [] tt),
)
