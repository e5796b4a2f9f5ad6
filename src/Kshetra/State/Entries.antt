-- ===== src/Kshetra/State/Entries.antt =====
-- src/kshetra/state.ts: reading back an entry that was set or deleted.
use shreni.Common.{String, none, some, List, [], ◌∷◌, ==_iff, ==_refl, ◌≡◌, ◌≢◌, refl, arith}
use shreni.Kshetra.State.{entry, set_entry, delete_entry}

module _ {ℓ} {A : Type ℓ} where
  pub entry-set_entry :
      (m : List (String × A)) (k : String) (a : A) → entry (set_entry m k a) k ≡ some a
  entry-set_entry [] k a = ground (arith, ==_refl k)
  entry-set_entry ((j, b) ∷ m) k a = ground (arith, ==_refl k, entry-set_entry m k a)

  pub entry-other :
      (m : List (String × A)) (k j : String) (a : A) → k ≢ j → entry (set_entry m k a) j ≡ entry m j
  entry-other [] k j a n = ground (arith, ==_iff k j, n)
  entry-other ((i, b) ∷ m) k j a n =
      ground (arith, ==_iff k j, ==_iff i k, n, entry-other m k j a n)

  pub entry-delete_entry : (m : List (String × A)) (k : String) → entry (delete_entry m k) k ≡ none
  entry-delete_entry [] k = refl
  entry-delete_entry ((j, b) ∷ m) k = ground (arith, entry-delete_entry m k)
