-- ===== src/SafeMap.antt =====
-- shared/thread_safe_unordered_map/ThreadSafeUnorderedMap.h. Each method holds the lock to its end, so
-- what threads see is a sequence of whole operations. The program itself does not use this map.
use hut_karish.Prelude.{◌≡◌, refl, ap, ◌∙◌, List, [], ◌∷◌, Option, none, some, if◌then◌else◌}
use hut_karish.Prelude.Assoc.{Eq, find, assign, erase, find-nil, find-assign, find-erase}

pub record ThreadSafeUnorderedMap {ℓ κ} (K : Type ℓ) (V : Type κ) : Type (ℓ ⊔ κ) where
  pub map : List (K × V)

module _ {ℓ κ} {K : Type ℓ} {V : Type κ} ⦃e : Eq K⦄ where
  pub insert_or_assign : K → V → ThreadSafeUnorderedMap K V → ThreadSafeUnorderedMap K V
  insert_or_assign key value m = record { map = assign key value m.map }

  -- `none` is nullptr.
  pub get : K → ThreadSafeUnorderedMap K V → Option V
  get key m = find key m.map

  pub erase_key : K → ThreadSafeUnorderedMap K V → ThreadSafeUnorderedMap K V
  erase_key key m = record { map = erase key m.map }

  pub clear : ThreadSafeUnorderedMap K V → ThreadSafeUnorderedMap K V
  clear m = record { map = [] }

  abbrev pub get_map : ThreadSafeUnorderedMap K V → List (K × V)
  get_map m = m.map

  get-insert_or_assign :
      (k j : K) (v : V) (m : ThreadSafeUnorderedMap K V)
      → get j (insert_or_assign k v m) ≡ (if e.beq k j then some v else get j m)
  unfolding get insert_or_assign
  get-insert_or_assign k j v m = find-assign k j v m.map

  get-erase_key :
      (k j : K) (m : ThreadSafeUnorderedMap K V)
      → get j (erase_key k m) ≡ (if e.beq k j then none else get j m)
  unfolding get erase_key
  get-erase_key k j m = find-erase k j m.map

  get-clear : (j : K) (m : ThreadSafeUnorderedMap K V) → get j (clear m) ≡ none
  unfolding get clear
  get-clear j m = find-nil j

-- The calls that change a map.
pub data Call {ℓ κ} (K : Type ℓ) (V : Type κ) : Type (ℓ ⊔ κ) where
  inserts : K → V → Call K V
  erases : K → Call K V
  clears : Call K V

module _ {ℓ κ} {K : Type ℓ} {V : Type κ} ⦃e : Eq K⦄ where
  -- The map after calls in the order in which they got the lock.
  pub run : List (Call K V) → ThreadSafeUnorderedMap K V → ThreadSafeUnorderedMap K V
  run [] m = m
  run (inserts k v ∷ cs) m = run cs (insert_or_assign k v m)
  run (erases k ∷ cs) m = run cs (erase_key k m)
  run (clears ∷ cs) m = run cs (clear m)

  -- What the calls leave at one key, of what was there: the last call that concerns it decides.
  abbrev pub effect : K → List (Call K V) → Option V → Option V
  effect j [] o = o
  effect j (inserts k v ∷ cs) o = effect j cs (if e.beq k j then some v else o)
  effect j (erases k ∷ cs) o = effect j cs (if e.beq k j then none else o)
  effect j (clears ∷ cs) o = effect j cs none

  -- After any sequence of calls, whichever threads they come from, `get` gives for a key what the
  -- last call that concerns the key left, or what was there before if none does.
  pub get-run :
      (j : K) (cs : List (Call K V)) (m : ThreadSafeUnorderedMap K V)
      → get j (run cs m) ≡ effect j cs (get j m)
  unfolding run
  get-run j [] m = refl
  get-run j (inserts k v ∷ cs) m =
      get-run j cs (insert_or_assign k v m) ∙ ap (effect j cs) (get-insert_or_assign k j v m)
  get-run j (erases k ∷ cs) m =
      get-run j cs (erase_key k m) ∙ ap (effect j cs) (get-erase_key k j m)
  get-run j (clears ∷ cs) m = get-run j cs (clear m) ∙ ap (effect j cs) (get-clear j m)
