-- ===== src/Examples/Flush.antt =====
-- Flushes of the map with two keys.
use wlt_traffic.Base.{◌≡◌, refl, none, some, arith, All}
use wlt_traffic.Error.{ok, driver}
use wlt_traffic.Calendar.{current_date_utc}
use wlt_traffic.Storage.Table.{find}
use wlt_traffic.Ebpf.TrafficMap.{iterate, next_key, lookup}
use wlt_traffic.Runtime.Flush.{flush}
use wlt_traffic.Runtime.Flush.View.{view_of, flush_order}
use mathlib.Core.List.Permᴰ
use wlt_traffic.Examples.Data.{key_1, key_2, entry_1, entry_2}
use wlt_traffic.Ebpf.TrafficMap.{TrafficKey, BpfMap}
use wlt_traffic.Error.{Result, err}
use wlt_traffic.Base.{Option, [], ◌∷◌, ◌==◌, if◌then◌else◌}
use wlt_traffic.Runtime.Flush.Refine.{Prefix}
use wlt_traffic.Runtime.Flush.Repeat.{IsDistinct, SameCounts}
use wlt_traffic.Runtime.Flush.Synced.{counters_of}
use wlt_traffic.Runtime.Flush.Complete.{Lists, Accepted}
use wlt_traffic.Runtime.Flush.Account.{entry_key, entry_raw, account_all}
use wlt_traffic.Runtime.Flush.Rows.{daily_row}
use wlt_traffic.Runtime.Flush.Correct.{flush_prefix, flush_total, flush_idempotent, flush_buckets}
use wlt_traffic.Runtime.History.{empty_tables}
use wlt_traffic.Runtime.History.Invariant.{empty-IsSynced}
use wlt_traffic.Examples.Data.{
  quiet, quiet-IsExact, quiet-IsReliable, failing, kernel, new_loop, entries,
}

pub kernel-Lists : Lists kernel none entries
unfolding next_key lookup
kernel-Lists = (refl, refl, (refl, refl, (driver 2, refl)))

entries-IsDistinct : IsDistinct entries
entries-IsDistinct = ground arith

pub new-Accepted : Accepted (current_date_utc 0) empty_tables entries
unfolding find
new-Accepted = record {
  fit = omega arith;
  distinct = entries-IsDistinct;
  not_behind = (record { caught_up = λ row f. cc }, (record { caught_up = λ row f. cc }, tt));
}

flush_prefix_example :
    let (r, g) = flush failing 3 0 1 new_loop in
    Prefix failing (current_date_utc 0) kernel iterate 3 new_loop.repo g.repo r
flush_prefix_example = flush_prefix failing 3 0 1 new_loop kernel refl refl

flush_total_example :
    let (r, g) = flush quiet 3 0 1 new_loop in
    (r ≡ ok tt)
    × (g.repo.committed ≡ account_all quiet (current_date_utc 0) entries empty_tables)
    × (g.last_flush ≡ some 1)
    × (g.flush_err ≡ none)
flush_total_example =
    flush_total quiet 3 0 1 new_loop kernel refl entries kernel-Lists (omega arith) quiet-IsReliable
      refl new-Accepted

flush_idempotent_example :
    let g = (flush quiet 3 0 1 new_loop).1 in
    SameCounts g.repo.committed (flush quiet 3 5 6 g).1.repo.committed
flush_idempotent_example =
    flush_idempotent quiet 3 0 1 5 6 new_loop kernel entries refl kernel-Lists (omega arith)
      entries-IsDistinct quiet-IsExact refl (empty-IsSynced (current_date_utc 0))
      flush_total_example.0 (unfold current_date_utc in refl)

flush_buckets_example :
    All
      (λ entry.
        counters_of (
          daily_row
            (flush quiet 3 0 1 new_loop).1.repo.committed
            (entry_key entry)
            (current_date_utc 0))
        ≡ entry_raw entry)
      entries
flush_buckets_example =
    flush_buckets quiet 3 0 1 new_loop kernel refl entries kernel-Lists (omega arith) quiet-IsExact
      refl (empty-IsSynced (current_date_utc 0)) entries-IsDistinct flush_total_example.0

-- the same entries in the other order
abbrev key_before : Option TrafficKey → Result TrafficKey
key_before none = ok key_2
key_before (some k) = if k.ifindex == 3 then ok key_1 else err (driver 2)

abbrev turned : BpfMap
turned = record kernel { map_next_key = key_before }

turned-Lists : Lists turned none (entry_2 ∷ entry_1 ∷ [])
unfolding next_key lookup
turned-Lists = (refl, refl, (refl, refl, (driver 2, refl)))

flush_order_example :
    view_of (flush quiet 3 0 1 new_loop).1.repo.committed
    ≡ view_of
        (flush quiet 3 0 1
          (record new_loop { traffic_map = some (record { m = some turned }) })).1.repo.committed
flush_order_example =
    flush_order quiet 3 0 1 new_loop kernel turned refl entries (entry_2 ∷ entry_1 ∷ [])
      kernel-Lists turned-Lists (Permᴰ.swap refl refl) (omega arith) quiet-IsReliable refl
      new-Accepted
