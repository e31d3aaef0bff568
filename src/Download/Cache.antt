-- ===== src/Download/Cache.antt =====
-- The cache of completed jobs of download/manager.go (`remember`): a bounded first-in first-out map.
use thesis_agent.Base.{
  suc, ◌≤◌, ◌<◌, ◌≡◌, refl, Bool, ◌&&◌, ◌||◌, false, Option, none, some, List, [], ◌∷◌, ◌++◌,
  String, arith, eq_iff, if◌then◌else◌, str_eq, ltb, length, head, length-append, is_some,
}
use thesis_agent.Base.Dict.{Dict, lookup, insert, lookup-insert, lookup-delete}
use thesis_agent.Base.Count.{count, count-append, indicator}
use thesis_agent.Download.{Result, Manager}
use thesis_agent.Download.Handlers.{completed_limit, evict, remember}

-- The order lists each key of the map once, and is no longer than the limit.
pub record IsValid (m : Manager) : Type 0 where
  pub listed_once :
      (k : String) → count k m.completed_order ≡ indicator (is_some (lookup k m.completed))
  pub bounded : length m.completed_order ≤ completed_limit

-- The order and the map just before the eviction.
module _ (key : String) (result : Result) (m : Manager) where
  abbrev order_with : List String
  order_with =
      if is_some (lookup key m.completed) then m.completed_order else m.completed_order ++ key ∷ []

  order_with-once :
      IsValid m
      → (k : String)
      → count k order_with ≡ indicator (is_some (lookup k (insert key result m.completed)))
  order_with-once v k = ground (
    arith,
    lookup-insert key k result m.completed,
    v.listed_once k,
    v.listed_once key,
    count-append k m.completed_order (key ∷ []),
    eq_iff key k,
  )

  length-order_with : IsValid m → length order_with ≤ suc completed_limit
  length-order_with v = ground (arith, v.bounded, length-append m.completed_order (key ∷ []))

evict-once :
    (order : List String) (done : Dict Result)
    → ((k : String) → count k order ≡ indicator (is_some (lookup k done)))
    → (k : String)
    → count k (evict order done).0 ≡ indicator (is_some (lookup k (evict order done).1))
unfolding evict
evict-once [] done h k = h k
evict-once (oldest ∷ order) done h k =
    ground (arith, h k, lookup-delete oldest k done, eq_iff oldest k)

evict-bounded :
    (order : List String) (done : Dict Result)
    → length order ≤ suc completed_limit
    → length (evict order done).0 ≤ completed_limit
unfolding evict
evict-bounded [] done h = omega arith
evict-bounded (oldest ∷ order) done h = ground arith

-- `remember` keeps a consistent cache consistent: the order lists each key of the map once, and
-- has at most 128 keys.
pub remember-IsValid :
    (key : String) (result : Result) (m : Manager) → IsValid m → IsValid (remember key result m)
unfolding remember
remember-IsValid key result m v = record {
  listed_once = evict-once _ _ (order_with-once key result m v);
  bounded = evict-bounded _ _ (length-order_with key result m v);
}

-- The job that a new one displaces: the oldest, where the cache is full and the job is not in it.
pub displaced : String → Manager → Option String
displaced key m =
    if is_some (lookup key m.completed) || ltb (length m.completed_order) completed_limit
    then none
    else head m.completed_order

abbrev pub is_key : Option String → String → Bool
is_key none k = false
is_key (some j) k = str_eq j k

lookup-evict :
    (order : List String) (done : Dict Result) (k : String)
    → lookup k (evict order done).1 ≡ (
        if ltb completed_limit (length order) && is_key (head order) k then none else lookup k done)
unfolding evict
lookup-evict [] done k = refl
lookup-evict (oldest ∷ order) done k = ground (arith, lookup-delete oldest k done, eq_iff oldest k)

head-append :
    (key : String) (order : List String) → 0 < length order → head (order ++ key ∷ []) ≡ head order
head-append key [] h = absurd (omega arith)
head-append key (x ∷ order) h = refl

fresh-head :
    (key : String) (order : List String) → count key order ≡ 0 → is_key (head order) key ≡ false
fresh-head key [] h = refl
fresh-head key (x ∷ order) h = ground arith

-- On a consistent cache, what a lookup answers after `remember`: the result just stored for its
-- own job, nothing for the job that it displaces, and for every other job what it answered before.
pub lookup-remember :
    (key : String) (result : Result) (m : Manager) (k : String)
    → IsValid m
    → lookup k (remember key result m).completed ≡ (
        if str_eq key k
        then some result
        else if is_key (displaced key m) k
        then none
        else lookup k m.completed)
unfolding remember displaced
lookup-remember key result m k v = ground (
  arith,
  lookup-evict (order_with key result m) (insert key result m.completed) k,
  lookup-insert key k result m.completed,
  v.listed_once key,
  v.bounded,
  length-append m.completed_order (key ∷ []),
  head-append key m.completed_order,
  fresh-head key m.completed_order,
  eq_iff key k,
)
