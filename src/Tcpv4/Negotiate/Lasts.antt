-- ===== src/Tcpv4/Negotiate/Lasts.antt =====
-- What a computation of Tcpv4.Negotiate.State that succeeds has established of its state.
use ion_dtn_contrib.Prelude.{
  ℕ, ◌≡◌, refl, ap, Bool, true, false, if◌then◌else◌, leb, ltb, List, [], ◌∷◌, ◌++◌, length, take,
  drop, Option, none, some, ℤ, pos, negsuc,
}
use mathlib.Core.Path.{subst}
use ion_dtn_contrib.Tcpv4.Negotiate.State.{
  Session, World, Neg, give, fail, ◌>>=◌, then_run, modify, ignore, guard, receive, receive_if,
  transmit, terminate, send_reject, demand,
}

-- From a state with `P`, a success gives a value and a state with `Q`.
pub record Gives {A : Type 0} (P : Session → Type 0) (m : Neg A) (Q : A → Session → Type 0)
    : Type 0 where
  pub given : (c d : Session) (a : A) → P c → m c ≡ (some a, d) → Q a d

-- Nothing but the octets read and written has changed.
abbrev pub Lasts : (Session → Type 0) → Type 0
Lasts P =
    (c : Session) (input : List ℕ) (sent : List (List ℕ))
    → P c
    → P (record c { input = input; sent = sent })

module _ {A : Type 0} where
  pub none-ne-some :
      (c d : Session) (a : A) → ◌≡◌ {A = Option A × Session} (none, c) (some a, d) → ⊥
  none-ne-some c d a e =
      absurd (let f : none ≡ some a = ap (λ (r : Option A × Session). r.0) e in cc)

  pub by_result :
      (Q : A → Session → Type 0) (a b : A) (c d : Session)
      → ◌≡◌ {A = Option A × Session} (some a, c) (some b, d)
      → Q a c
      → Q b d
  by_result Q a b c d e q =
      let same : a ≡ b = cc in
      let state : c ≡ d = ap (λ (r : Option A × Session). r.1) e in
      subst (λ s. Q b s) state (subst (λ x. Q x c) same q)

  pub give-Gives :
      (P : Session → Type 0) (Q : A → Session → Type 0) (a : A)
      → ((c : Session) → P c → Q a c)
      → Gives P (give a) Q
  unfolding give
  give-Gives P Q a f = record { given = λ c d b p e. by_result Q a b c d e (f c p) }

  pub fail-Gives : (P : Session → Type 0) (Q : A → Session → Type 0) → Gives P (fail {A = A}) Q
  unfolding fail
  fail-Gives P Q = record { given = λ c d a p e. absurd (none-ne-some c d a e) }

  pub branch-Gives :
      (P : Session → Type 0) (Q : A → Session → Type 0) (b : Session → Bool) (m n : Neg A)
      → Gives (λ c. P c × (b c ≡ true)) m Q
      → Gives (λ c. P c × (b c ≡ false)) n Q
      → Gives P (λ c. if b c then m c else n c) Q
  branch-Gives P Q b m n gm gn = record { given = λ c d a p e. by_test c d a p (b c) refl e }
    where
      by_test :
          (c d : Session) (a : A)
          → P c
          → (t : Bool) → b c ≡ t
          → (if t then m c else n c) ≡ (some a, d)
          → Q a d
      by_test c d a p true h e = gm.given c d a (p, h) e
      by_test c d a p false h e = gn.given c d a (p, h) e

  -- The same for a test that does not look at the state.
  pub if-Gives :
      (P : Session → Type 0) (Q : A → Session → Type 0) (b : Bool) (m n : Neg A)
      → (b ≡ true → Gives P m Q)
      → (b ≡ false → Gives P n Q)
      → Gives P (if b then m else n) Q
  if-Gives P Q true m n gm gn = gm refl
  if-Gives P Q false m n gm gn = gn refl

  pub weaken-Gives :
      (P R : Session → Type 0) (Q : A → Session → Type 0) (m : Neg A)
      → ((c : Session) → P c → R c)
      → Gives R m Q
      → Gives P m Q
  weaken-Gives P R Q m f g = record { given = λ c d a p e. g.given c d a (f c p) e }

  pub conclude-Gives :
      (P : Session → Type 0) (R Q : A → Session → Type 0) (m : Neg A)
      → ((a : A) (c : Session) → R a c → Q a c)
      → Gives P m R
      → Gives P m Q
  conclude-Gives P R Q m f g = record { given = λ c d a p e. f a d (g.given c d a p e) }

  -- Where the test does not matter.
  pub either-Gives :
      (P : Session → Type 0) (Q : A → Session → Type 0) (b : Session → Bool) (m n : Neg A)
      → Gives P m Q
      → Gives P n Q
      → Gives P (λ c. if b c then m c else n c) Q
  either-Gives P Q b m n gm gn =
      branch-Gives P Q b m n (weaken-Gives (λ c. P c × (b c ≡ true)) P Q m (λ c p. p.0) gm)
        (weaken-Gives (λ c. P c × (b c ≡ false)) P Q n (λ c p. p.0) gn)

pub bind-Gives :
    {A B : Type 0} (P : Session → Type 0) (R : A → Session → Type 0) (Q : B → Session → Type 0)
    (m : Neg A) (f : A → Neg B)
    → Gives P m R
    → ((a : A) → Gives (R a) (f a) Q)
    → Gives P (m >>= f) Q
unfolding ◌>>=◌
bind-Gives {A = A} {B = B} P R Q m f gm gf = record {
  given = λ c d b p e. by_first c d b p (m c) refl e;
}
  where
    by_first :
        (c d : Session) (b : B)
        → P c
        → (r : Option A × Session) → m c ≡ r
        → then_run f r ≡ (some b, d)
        → Q b d
    by_first c d b p (none, c') h e = absurd (none-ne-some c' d b e)
    by_first c d b p (some a, c') h e = (gf a).given c' d b (gm.given c c' a p h) e

pub modify-Gives :
    (P : Session → Type 0) (Q : Unit {0} → Session → Type 0) (f : Session → Session)
    → ((c : Session) → P c → Q tt (f c))
    → Gives P (modify f) Q
unfolding modify
modify-Gives P Q f k = record { given = λ c d a p e. by_result Q tt a (f c) d e (k c p) }

module _ (P : Session → Type 0) where
  pub ignore-Gives :
      (m : Neg (Unit {0})) → ((c : Session) → P c → P (m c).1) → Gives P (ignore m) (λ u. P)
  unfolding ignore
  ignore-Gives m k = record {
    given = λ c d a p e. by_result (λ (u : Unit {0}). P) tt a (m c).1 d e (k c p);
  }

  pub guard-Gives : (b : Bool) → Gives P (guard b) (λ u c. P c × (b ≡ true))
  unfolding guard
  guard-Gives true = record {
    given = λ c d a p e. by_result (λ (u : Unit {0}) c. P c × (true ≡ true)) tt a c d e (p, refl);
  }
  guard-Gives false = record { given = λ c d a p e. absurd (none-ne-some c d a e) }

  module _ (lasts : Lasts P) where
    pub receive-Gives : (n : ℕ) → Gives P (receive n) (λ bs. P)
    unfolding receive
    receive-Gives n =
        branch-Gives P (λ (bs : List ℕ). P) (λ c. leb n (length c.input)) _ _
          (record {
            given = λ c d a p e.
                by_result (λ (bs : List ℕ). P) (take n c.input) a
                  (record c { input = drop n c.input }) d e (lasts c _ c.sent p.0);
          })
          (record { given = λ c d a p e. absurd (none-ne-some _ d a e) })

    pub receive_if-Gives : (n : ℕ) → Gives P (receive_if n) (λ bs. P)
    unfolding receive_if
    receive_if-Gives n =
        if-Gives P (λ (bs : List ℕ). P) (ltb 0 n) (receive n) (give []) (λ e. receive-Gives n)
          (λ e. give-Gives P (λ (bs : List ℕ). P) [] (λ c p. p))

    pub transmit-Gives : (world : World) (r : ℤ × List ℕ) → Gives P (transmit world r) (λ u. P)
    unfolding transmit
    transmit-Gives world (negsuc n, octets) = record {
      given = λ c d a p e. absurd (none-ne-some c d a e);
    }
    transmit-Gives world (pos n, octets) =
        branch-Gives P (λ (u : Unit {0}). P) world.writes _ _
          (record {
            given = λ c d a p e.
                by_result (λ (u : Unit {0}). P) tt a (record c { sent = c.sent ++ (octets ∷ []) }) d
                  e (lasts c c.input _ p.0);
          })
          (record { given = λ c d a p e. absurd (none-ne-some c d a e) })

module _ {A : Type 0} (world : World) (P : Session → Type 0) (Q : A → Session → Type 0) where
  pub terminate-Gives : (reason : ℕ) → Gives P (terminate world {A = A} reason) Q
  unfolding terminate ◌>>=◌ ignore fail
  terminate-Gives reason = record { given = λ c d a p e. absurd (none-ne-some _ d a e) }

  pub send_reject-Gives : (reason type : ℕ) → Gives P (send_reject world {A = A} reason type) Q
  unfolding send_reject ◌>>=◌ ignore fail
  send_reject-Gives reason type = record { given = λ c d a p e. absurd (none-ne-some _ d a e) }

-- What is demanded holds where the session goes on.
pub demand-Gives :
    (world : World) (P : Session → Type 0) (reason : ℕ) (b : Bool)
    → Gives P (demand world reason b) (λ u c. P c × (b ≡ true))
unfolding demand
demand-Gives world P reason b =
    if-Gives P _ b (give tt) (terminate world reason)
      (λ e. give-Gives P (λ u c. P c × (b ≡ true)) tt (λ c p. (p, e)))
      (λ e. terminate-Gives world P (λ u c. P c × (b ≡ true)) reason)
