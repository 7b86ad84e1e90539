-- ===== src/Maputil/Merge.antt =====
-- maputil/maputil.go: merging of maps. The entries of a map are read in the order of the list.
use goutil.Prelude.{List, [], ◌∷◌, Option, some}
use goutil.Maputil.Values.{Any, amap, Fields, end, field, lookup, put}

-- `SimpleMerge`; where one map is empty it is the other.
unfoldable mutual
  unfolding lookup put

  pub simple_merge : Fields → Fields → Fields
  simple_merge end dst = dst
  simple_merge (field k v src) end = field k v src
  simple_merge (field k v src) (field j w dst) =
      merge_loop src (put k (merge_value v (lookup k (field j w dst))) (field j w dst))

  pub merge_loop : Fields → Fields → Fields
  merge_loop end dst = dst
  merge_loop (field k v src) dst = merge_loop src (put k (merge_value v (lookup k dst)) dst)

  -- Two maps under one key are merged; else the new value stands.
  pub merge_value : Any → Option Any → Any
  merge_value (amap s) (some (amap d)) = amap (simple_merge s d)
  merge_value v old = v

-- One map of `Merge1level`.
unfoldable pub load : Fields → Fields → Fields
unfolding put
load end new_mp = new_mp
load (field k v mp) new_mp = load mp (put k v new_mp)

-- `Merge1level`
unfoldable pub merge_1level : List Fields → Fields → Fields
unfolding load
merge_1level [] new_mp = new_mp
merge_1level (mp ∷ mps) new_mp = merge_1level mps (load mp new_mp)
