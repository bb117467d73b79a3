-- ===== src/Wire/Reader/Laws.antt =====
-- Validity of a reader, and what every reading call keeps: the buffer, the bounds of the offset,
-- and a failure once it is noted.
use ion_dtn_contrib.Prelude.{
  ℕ, ◌^◌, ◌≤◌, ◌<◌, ◌≡◌, refl, ◌∙◌, Bool, true, false, if◌then◌else◌, All, length, arith,
}
use ion_dtn_contrib.Wire.Size.{IsByte}
use ion_dtn_contrib.Wire.Reader.{Reader, Read, ◌>>=◌, give, r_u8, r_u16, r_u32, r_u64, r_bytes}

-- The offset lies in the buffer, the buffer is shorter than the largest int and holds octets.
pub record IsValid (r : Reader) : Type 0 where
  pub within : r.off ≤ length r.buf
  pub small : length r.buf < 2 ^ 31
  pub octets : All IsByte r.buf

pub record Keeps (r r' : Reader) : Type 0 where
  pub same_buf : r'.buf ≡ r.buf
  pub valid : IsValid r'
  pub sticky : r'.ok ≡ true → r.ok ≡ true
  pub forward : r.off ≤ r'.off

-- What the call does to any valid reader.
pub record Safe {A : Type 0} (f : Read A) : Type 0 where
  pub at : (r : Reader) → IsValid r → Keeps r (f r).1

Keeps-trans : (r s t : Reader) → Keeps r s → Keeps s t → Keeps r t
Keeps-trans r s t p q = record {
  same_buf = q.same_buf ∙ p.same_buf;
  valid = q.valid;
  sticky = λ e. p.sticky (q.sticky e);
  forward = omega (arith, p.forward, q.forward);
}

module _ {A B : Type 0} where
  pub Safe-bind : (f : Read A) (g : A → Read B) → Safe f → ((a : A) → Safe (g a)) → Safe (f >>= g)
  unfolding ◌>>=◌
  Safe-bind f g p q = record {
    at = λ r v. Keeps-trans r (f r).1 _ (p.at r v) ((q (f r).0).at (f r).1 (p.at r v).valid);
  }

module _ {A : Type 0} where
  pub Safe-give : (a : A) → Safe (give a)
  unfolding give
  Safe-give a = record {
    at = λ r v. record { same_buf = λ _. r.buf; valid = v; sticky = λ e. e; forward = omega arith };
  }

  pub Safe-if :
      (b : Bool) (f g : Read A)
      → (b ≡ true → Safe f)
      → (b ≡ false → Safe g)
      → Safe (if b then f else g)
  Safe-if true f g p q = p refl
  Safe-if false f g p q = q refl

r_u8_buf : (r : Reader) → (r_u8 r).1.buf ≡ r.buf
unfolding r_u8
r_u8_buf r = ground arith

r_bytes_buf : (n : ℕ) (r : Reader) → (r_bytes n r).1.buf ≡ r.buf
unfolding r_bytes
r_bytes_buf n r = ground arith

r_u8-Keeps : (r : Reader) → IsValid r → Keeps r (r_u8 r).1
unfolding r_u8
r_u8-Keeps r v = record {
  same_buf = r_u8_buf r;
  valid = record { within = ground arith; small = ground arith; octets = rw (r_u8_buf r) v.octets };
  sticky = ground arith;
  forward = ground arith;
}

r_bytes-Keeps : (n : ℕ) (r : Reader) → IsValid r → Keeps r (r_bytes n r).1
unfolding r_bytes
r_bytes-Keeps n r v = record {
  same_buf = r_bytes_buf n r;
  valid = record {
    within = ground arith;
    small = ground arith;
    octets = rw (r_bytes_buf n r) v.octets;
  };
  sticky = ground arith;
  forward = ground arith;
}

pub r_u8-Safe : Safe r_u8
r_u8-Safe = record { at = r_u8-Keeps }

pub r_bytes-Safe : (n : ℕ) → Safe (r_bytes n)
r_bytes-Safe n = record { at = λ r v. r_bytes-Keeps n r v }

ruleset monad_rules = (Safe-bind, Safe-give, Safe-if, r_u8-Safe)

pub r_u16-Safe : Safe r_u16
unfolding r_u16
r_u16-Safe = search monad_rules

pub r_u32-Safe : Safe r_u32
unfolding r_u32
r_u32-Safe = search (monad_rules, r_u16-Safe)

pub r_u64-Safe : Safe r_u64
unfolding r_u64
r_u64-Safe = search (monad_rules, r_u32-Safe)

pub ruleset safe_rules =
    (Safe-bind, Safe-give, Safe-if, r_u8-Safe, r_u16-Safe, r_u32-Safe, r_u64-Safe, r_bytes-Safe)
