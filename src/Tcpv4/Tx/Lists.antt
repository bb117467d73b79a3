-- ===== src/Tcpv4/Tx/Lists.antt =====
-- The transfer lists of CLA/tcpv4/src/tcpv4tx.c: what unlinking and writing change of them.
use ion_dtn_contrib.Prelude.{
  ℕ, suc, ◌+◌, ◌≤◌, ◌≡◌, ◌≢◌, refl, Bool, ◌==◌, if◌then◌else◌, List, [], ◌∷◌, ◌++◌, length, some,
  arith,
}
use ion_dtn_contrib.Tcpv4.Tx.{Tcpv4Xfer, tx_unlink, find_self, store, is_head, find_transfer}

-- The sum of a measure over a list.
abbrev pub total : (Tcpv4Xfer → ℕ) → List Tcpv4Xfer → ℕ
total m [] = 0
total m (x ∷ xs) = m x + total m xs

abbrev pub one_if : Bool → ℕ
one_if b = if b then 1 else 0

abbrev pub remove : ℕ → List Tcpv4Xfer → List Tcpv4Xfer
remove p [] = []
remove p (x ∷ xs) = if x.self == p then xs else x ∷ remove p xs

pub total-append :
    (m : Tcpv4Xfer → ℕ) (xs ys : List Tcpv4Xfer) → total m (xs ++ ys) ≡ total m xs + total m ys
total-append m [] ys = omega arith
total-append m (x ∷ xs) ys = omega (arith, total-append m xs ys)

pub find_self-self :
    (xs : List Tcpv4Xfer) (p : ℕ) (y : Tcpv4Xfer) → find_self xs p ≡ some y → y.self ≡ p
unfolding find_self
find_self-self [] p y e = cc
find_self-self (x ∷ xs) p y e = ground (arith, find_self-self xs p y)

pub tx_unlink-remove :
    (xs : List Tcpv4Xfer) (p : ℕ) (y : Tcpv4Xfer)
    → find_self xs p ≡ some y
    → tx_unlink xs p ≡ some (remove p xs)
unfolding find_self tx_unlink
tx_unlink-remove [] p y e = cc
tx_unlink-remove (x ∷ xs) p y e = ground (arith, tx_unlink-remove xs p y)

-- A list that holds an object at `p` loses its measure with it.
pub total-remove :
    (m : Tcpv4Xfer → ℕ) (xs : List Tcpv4Xfer) (p : ℕ) (y : Tcpv4Xfer)
    → find_self xs p ≡ some y
    → total m (remove p xs) + m y ≡ total m xs
unfolding find_self
total-remove m [] p y e = cc
total-remove m (x ∷ xs) p y e = ground (arith, total-remove m xs p y)

pub length-remove :
    (xs : List Tcpv4Xfer) (p : ℕ) (y : Tcpv4Xfer)
    → find_self xs p ≡ some y
    → suc (length (remove p xs)) ≡ length xs
unfolding find_self
length-remove [] p y e = cc
length-remove (x ∷ xs) p y e = ground (arith, length-remove xs p y)

pub total-store :
    (m : Tcpv4Xfer → ℕ) (xs : List Tcpv4Xfer) (x y : Tcpv4Xfer)
    → find_self xs x.self ≡ some y
    → total m (store x xs) + m y ≡ total m xs + m x
unfolding find_self store
total-store m [] x y e = cc
total-store m (z ∷ xs) x y e = ground (arith, total-store m xs x y)

pub length-store : (xs : List Tcpv4Xfer) (x : Tcpv4Xfer) → length (store x xs) ≡ length xs
unfolding store
length-store [] x = refl
length-store (z ∷ xs) x = ground (arith, length-store xs x)

pub find_self-store :
    (xs : List Tcpv4Xfer) (x y : Tcpv4Xfer)
    → find_self xs x.self ≡ some y
    → find_self (store x xs) x.self ≡ some x
unfolding find_self store
find_self-store [] x y e = cc
find_self-store (z ∷ xs) x y e = ground (arith, find_self-store xs x y)

pub find_self-store_other :
    (xs : List Tcpv4Xfer) (x : Tcpv4Xfer) (q : ℕ)
    → x.self ≢ q
    → find_self (store x xs) q ≡ find_self xs q
unfolding find_self store
find_self-store_other [] x q h = refl
find_self-store_other (z ∷ xs) x q h = ground (arith, find_self-store_other xs x q)

pub remove-store :
    (xs : List Tcpv4Xfer) (x : Tcpv4Xfer) → remove x.self (store x xs) ≡ remove x.self xs
unfolding store
remove-store [] x = refl
remove-store (z ∷ xs) x = ground (arith, remove-store xs x)

pub find_self-remove_other :
    (xs : List Tcpv4Xfer) (p q : ℕ) → p ≢ q → find_self (remove p xs) q ≡ find_self xs q
unfolding find_self
find_self-remove_other [] p q h = refl
find_self-remove_other (x ∷ xs) p q h = ground (arith, find_self-remove_other xs p q)

pub is_head-store :
    (xs : List Tcpv4Xfer) (x : Tcpv4Xfer) (q : ℕ) → is_head (store x xs) q ≡ is_head xs q
unfolding store
is_head-store [] x q = refl
is_head-store (z ∷ xs) x q = ground arith

-- An object that is nowhere else is found where it was put last.
pub find_self-append :
    (xs : List Tcpv4Xfer) (x : Tcpv4Xfer)
    → total (λ y. one_if (y.self == x.self)) xs ≡ 0
    → find_self (xs ++ (x ∷ [])) x.self ≡ some x
unfolding find_self
find_self-append [] x e = ground arith
find_self-append (z ∷ xs) x e = ground (arith, find_self-append xs x)

find_transfer-total :
    (xs : List Tcpv4Xfer) (id : ℕ) (y : Tcpv4Xfer)
    → find_transfer xs id ≡ some y
    → 1 ≤ total (λ z. one_if (z.self == y.self)) xs
unfolding find_transfer
find_transfer-total [] id y e = cc
find_transfer-total (x ∷ xs) id y e = ground (arith, find_transfer-total xs id y)

-- In a list of distinct objects the one that a transfer ID finds is the one at its address.
pub find_transfer-find_self :
    (xs : List Tcpv4Xfer) (id : ℕ) (y : Tcpv4Xfer)
    → find_transfer xs id ≡ some y
    → total (λ z. one_if (z.self == y.self)) xs ≤ 1
    → find_self xs y.self ≡ some y
unfolding find_self find_transfer
find_transfer-find_self [] id y e h = cc
find_transfer-find_self (x ∷ xs) id y e h =
    ground (arith, find_transfer-find_self xs id y, find_transfer-total xs id y)
