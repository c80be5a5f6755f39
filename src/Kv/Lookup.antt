-- ===== src/Kv/Lookup.antt =====
-- What a command leaves to look up, against a map that is a function.
use node_raft_rsm.Base.{
  same_refl, ◌∙◌, ◌≡◌, refl, inl, inr, true, false, Text, same, has, distinct, get, put, delete,
  get-put, if◌then◌else◌, Option, none, some, List, [], ◌∷◌, arith, Bool-cases,
}
use node_raft_rsm.Kv.{
  KvCommand, put_command, delete_command, compare_and_set, KvResult, applied, conflict, same_value,
  apply_kv, VisualizerCommand, put_shown, delete_shown, key_of, apply_visualizer,
}

abbrev pub keys : List (Text × Text) → List Text
keys [] = []
keys ((k, v) ∷ m) = k ∷ keys m

-- No key is there twice, as in a Map.
abbrev pub Proper : List (Text × Text) → Type 0
Proper m = distinct (keys m) ≡ true

get-missing : (m : List (Text × Text)) (k : Text) → has k (keys m) ≡ false → get m k ≡ none
get-missing [] k h = refl
get-missing ((j, w) ∷ m) k h = ground (arith, get-missing m k)

get-delete :
    (m : List (Text × Text)) (k j : Text)
    → Proper m
    → get (delete m k) j ≡ (if same k j then none else get m j)
get-delete [] k j h = ground arith
get-delete ((i, w) ∷ m) k j h = ground (arith, get-missing m i, get-delete m k j)

has-put :
    (m : List (Text × Text)) (k j : Text) (v : Text)
    → has j (keys (put m k v)) ≡ (if same k j then true else has j (keys m))
has-put [] k j v = ground arith
has-put ((i, w) ∷ m) k j v = ground (arith, has-put m k j v)

has-delete :
    (m : List (Text × Text)) (k j : Text)
    → has j (keys m) ≡ false
    → has j (keys (delete m k)) ≡ false
has-delete [] k j h = h
has-delete ((i, w) ∷ m) k j h = ground (arith, has-delete m k j)

put-Proper : (m : List (Text × Text)) (k v : Text) → Proper m → Proper (put m k v)
put-Proper [] k v h = refl
put-Proper ((i, w) ∷ m) k v h = ground (arith, put-Proper m k v, has-put m k i v)

delete-Proper : (m : List (Text × Text)) (k : Text) → Proper m → Proper (delete m k)
delete-Proper [] k h = refl
delete-Proper ((i, w) ∷ m) k h = ground (arith, delete-Proper m k, has-delete m k i)

-- The abstract machine: a map is a function from keys.
abbrev pub updated : (Text → Option Text) → Text → Option Text → Text → Option Text
updated f key value j = if same key j then value else f j

abbrev pub apply_map : KvCommand → (Text → Option Text) → KvResult × (Text → Option Text)
apply_map (put_command key value) f = (applied (some value), updated f key (some value))
apply_map (delete_command key) f = (applied (f key), updated f key none)
apply_map (compare_and_set key expected value) f =
    if same_value (f key) expected
    then (applied (some value), updated f key (some value))
    else (conflict (f key), f)

-- On a map without double keys, each command has the result that it has on the function that looks a
-- key up, leaves a map without double keys, and afterwards every key looks up what it does in the
-- function that the command leaves: the key that it names has the new value or none, every other key
-- is as it was, and a compare-and-set that conflicts changes nothing.
pub apply_kv-map :
    (c : KvCommand) (m : List (Text × Text))
    → Proper m
    → ((apply_kv c m).0 ≡ (apply_map c (get m)).0)
      × Proper (apply_kv c m).1
      × ((j : Text) → get (apply_kv c m).1 j ≡ (apply_map c (get m)).1 j)
unfolding apply_kv
apply_kv-map (put_command key value) m h =
    (refl, put-Proper m key value h, λ j. get-put m key j value)
apply_kv-map (delete_command key) m h = (refl, delete-Proper m key h, λ j. get-delete m key j h)
apply_kv-map (compare_and_set key expected value) m h =
    elim (Bool-cases (same_value (get m key) expected)) [
      | inl g ↦ rw g (refl, put-Proper m key value h, λ j. get-put m key j value)
      | inr g ↦ rw g (refl, h, λ j. refl)
    ]

-- What the command says that its key looks up afterwards.
abbrev pub wanted : VisualizerCommand → Option Text
wanted (put_shown key value) = some value
wanted (delete_shown key) = none

-- The machine of the visualizer, on a map without double keys: it reports what the key looked up
-- before, and the value that was put, or none after a delete; it keeps keys single; afterwards the key
-- looks up that value, or nothing, and every other key what it did.
pub apply_visualizer-map :
    (c : VisualizerCommand) (m : List (Text × Text))
    → Proper m
    → ((apply_visualizer c m).0.previous_value ≡ get m (key_of c))
      × ((apply_visualizer c m).0.value ≡ wanted c)
      × Proper (apply_visualizer c m).1
      × ((j : Text) → get (apply_visualizer c m).1 j ≡ updated (get m) (key_of c) (wanted c) j)
unfolding apply_visualizer
apply_visualizer-map (put_shown key value) m h = (
  refl,
  get-put m key key value ∙ rw (same_refl key) refl,
  put-Proper m key value h,
  λ j. get-put m key j value,
)
apply_visualizer-map (delete_shown key) m h = (
  refl,
  get-delete m key key h ∙ rw (same_refl key) refl,
  delete-Proper m key h,
  λ j. get-delete m key j h,
)
