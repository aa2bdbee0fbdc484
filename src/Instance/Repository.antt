-- ===== src/Instance/Repository.antt =====
-- internal/instance/repository.go: the instances by their ids. Launch and Stop take the answers of
-- the launcher. A `range` over Go's map visits the entries in an order of its own each time, which is
-- an argument: a list of the entries that `Visits` the map.
pub mod Running
use pinchtab.Prelude.{
  ℕ, ◌≡◌, String, Bool, true, false, Option, none, some, List, [], ◌∷◌, length, str_eq,
  if◌then◌else◌,
}
use pinchtab.Prelude.Map
use pinchtab.Prelude.Map.{Map}

-- The fields of bridge.Instance that the package reads.
pub record Instance : Type 0 where
  pub id : String
  pub port : String
  pub url : String
  pub status : String

pub record Repository : Type 0 where
  pub instances : Map Instance

unfoldable pub new_repository : Repository
new_repository = record { instances = [] }

-- What a `range` over a map meets: each key once, with its value.
pub record Visits {ℓ} {V : Type ℓ} (order entries : Map V) : Type ℓ where
  pub distinct : Map.Distinct order
  pub same : (key : String) → Map.lookup key order ≡ Map.lookup key entries

-- Add
unfoldable pub add : Instance → Repository → Repository
add inst r = record r { instances = Map.insert inst.id inst r.instances }

-- Remove
unfoldable pub remove : String → Repository → Repository
remove id r = record r { instances = Map.delete id r.instances }

-- Launch, of the launcher's answer
unfoldable pub launch : Option Instance → Repository → Repository × Option Instance
unfolding add
launch none r = (r, none)
launch (some inst) r = (add inst r, some inst)

-- Stop, of whether the launcher could stop the instance
unfoldable pub stop : Bool → String → Repository → Repository × Bool
unfolding remove
stop false id r = (r, false)
stop true id r = (remove id r, true)

abbrev pub is_running : Instance → Bool
is_running inst = str_eq inst.status "running"

abbrev values : Map Instance → List Instance
values [] = []
values ((key, inst) ∷ entries) = inst ∷ values entries

-- List
unfoldable pub list : Map Instance → List Instance
list order = values order

-- Running
unfoldable pub running : Map Instance → List Instance
running [] = []
running ((key, inst) ∷ entries) =
    let rest = running entries in if is_running inst then inst ∷ rest else rest

-- Get
unfoldable pub get : String → Repository → Option Instance
get id r = Map.lookup id r.instances

-- Count
unfoldable pub count : Repository → ℕ
count r = length r.instances
