-- ===== src/Exec.antt =====
-- Methods that mutate an object and may raise. What was written before a raise stays written, so
-- the state comes back beside the error too.
use nanoserve.Prelude.{List, [], refl, ℕ, ◌∷◌, ◌≡◌}

-- The exceptions of the engine: an index out of range, the two `RuntimeError`s of
-- `engine/block_manager.py`, its `OutOfBlocks`, and the `RuntimeError` of `engine/kv_cache.py`.
pub data Error : Type 0 where
  index_error incref_on_free decref_on_free out_of_blocks slot_capacity : Error

pub data Result {ℓ} (A : Type ℓ) : Type ℓ where
  ok : A → Result A
  err : Error → Result A

abbrev pub Exec : Type 0 → Type 0 → Type 0
Exec S A = S → Result A × S

module _ {S A B : Type 0} where
  -- The rest of a block: run after a return, skipped after a raise.
  abbrev pub proceed : Result A → (A → Exec S B) → Exec S B
  proceed (ok a) f s = f a s
  proceed (err e) f s = (err e, s)

  infixl 5 ◌>>=◌
  abbrev pub ◌>>=◌ : Exec S A → (A → Exec S B) → Exec S B
  ◌>>=◌ m f s = let (r, s') = m s in proceed r f s'

module _ {S B : Type 0} where
  infixl 5 ◌>>◌
  abbrev pub ◌>>◌ : Exec S (Unit {0}) → Exec S B → Exec S B
  m >> k = m >>= λ _. k

module _ {S : Type 0} where
  -- `for x in xs: body(x)`
  unfoldable pub for_each : (ℕ → Exec S (Unit {0})) → List ℕ → Exec S (Unit {0})
  for_each body [] s = (ok tt, s)
  for_each body (x ∷ xs) s = let rest = for_each body xs in (body x >> rest) s

-- A block whose first step returns, or raises.
pub bind_ok :
    {S A B : Type 0} (m : Exec S A) (f : A → Exec S B) (s : S) (a : A)
    → (m s).0 ≡ ok a
    → (m >>= f) s ≡ f a (m s).1
bind_ok m f s a e = rw e

pub bind_err :
    {S A B : Type 0} (m : Exec S A) (f : A → Exec S B) (s : S) (e : Error)
    → (m s).0 ≡ err e
    → (m >>= f) s ≡ (err e, (m s).1)
bind_err m f s e h = rw h

-- The same, with the state that the first step leaves.
pub bind_run :
    {S A B : Type 0} (m : Exec S A) (f : A → Exec S B) (s t : S) (a : A)
    → m s ≡ (ok a, t)
    → (m >>= f) s ≡ f a t
bind_run m f s t a e = rw e refl

pub raise_run :
    {S A B : Type 0} (m : Exec S A) (f : A → Exec S B) (s t : S) (e : Error)
    → m s ≡ (err e, t)
    → (m >>= f) s ≡ (err e, t)
raise_run m f s t e h = rw h refl
