-- ===== src/Stats/Balance.antt =====
-- The counters of override_store/stats.rs under an insertion and the removal of the same entry.
use shadowfs.Base.{ℕ, ◌<◌, ◌≡◌, refl, arith}
use shadowfs.Entry.{OverrideContent, OverrideEntry}
use shadowfs.Entry.{file, directory, deleted}
use shadowfs.Memory.{usize_mod}
use shadowfs.Stats.{
  OverrideStoreStats, fetch_add, fetch_sub, update_on_insert, update_on_remove,
  update_hot_path_access,
}

-- Each counter is a 64-bit value.
pub record IsBounded (s : OverrideStoreStats) : Type 0 where
  pub total : s.total_entries < usize_mod
  pub files : s.file_entries < usize_mod
  pub directories : s.directory_entries < usize_mod
  pub deletions : s.deleted_entries < usize_mod
  pub memory : s.total_memory_bytes < usize_mod
  pub compressed : s.compressed_bytes_saved < usize_mod
  pub deduplicated : s.dedup_bytes_saved < usize_mod

-- Two statistics agree on the counters that an insertion writes.
pub record SameCounts (s t : OverrideStoreStats) : Type 0 where
  pub total : s.total_entries ≡ t.total_entries
  pub files : s.file_entries ≡ t.file_entries
  pub directories : s.directory_entries ≡ t.directory_entries
  pub deletions : s.deleted_entries ≡ t.deleted_entries
  pub memory : s.total_memory_bytes ≡ t.total_memory_bytes
  pub compressed : s.compressed_bytes_saved ≡ t.compressed_bytes_saved
  pub deduplicated : s.dedup_bytes_saved ≡ t.dedup_bytes_saved

fetch_sub-fetch_add : (a b : ℕ) → a < usize_mod → b < usize_mod → fetch_sub (fetch_add a b) b ≡ a
fetch_sub-fetch_add a b h k = ground arith

-- Where the counters and the three sizes are 64-bit values: recording a removal after the insertion
-- of the same entry with the same sizes brings all seven counters back, also where one wrapped
-- around.
pub update_on_remove-update_on_insert :
    (now : ℕ) (e : OverrideEntry) (size saved shared : ℕ) (s : OverrideStoreStats)
    → IsBounded s
    → size < usize_mod
    → saved < usize_mod
    → shared < usize_mod
    → SameCounts
        (update_on_remove e size saved shared (update_on_insert now e size saved shared s))
        s
update_on_remove-update_on_insert now e size saved shared s h k l m = of_content e.content
  where
    of_content :
        (c : OverrideContent)
        → SameCounts
            (update_on_remove
              (record e { content = c })
              size
              saved
              shared
              (update_on_insert now (record e { content = c }) size saved shared s))
            s
    of_content (file d x z) =
        unfold update_on_remove update_on_insert update_hot_path_access in
        record {
          total = fetch_sub-fetch_add s.total_entries 1 h.total (ground arith);
          files = fetch_sub-fetch_add s.file_entries 1 h.files (ground arith);
          directories = refl;
          deletions = refl;
          memory = fetch_sub-fetch_add s.total_memory_bytes size h.memory k;
          compressed = fetch_sub-fetch_add s.compressed_bytes_saved saved h.compressed l;
          deduplicated = fetch_sub-fetch_add s.dedup_bytes_saved shared h.deduplicated m;
        }
    of_content (directory n) =
        unfold update_on_remove update_on_insert in
        record {
          total = fetch_sub-fetch_add s.total_entries 1 h.total (ground arith);
          files = refl;
          directories = fetch_sub-fetch_add s.directory_entries 1 h.directories (ground arith);
          deletions = refl;
          memory = fetch_sub-fetch_add s.total_memory_bytes size h.memory k;
          compressed = fetch_sub-fetch_add s.compressed_bytes_saved saved h.compressed l;
          deduplicated = fetch_sub-fetch_add s.dedup_bytes_saved shared h.deduplicated m;
        }
    of_content deleted =
        unfold update_on_remove update_on_insert in
        record {
          total = fetch_sub-fetch_add s.total_entries 1 h.total (ground arith);
          files = refl;
          directories = refl;
          deletions = fetch_sub-fetch_add s.deleted_entries 1 h.deletions (ground arith);
          memory = fetch_sub-fetch_add s.total_memory_bytes size h.memory k;
          compressed = fetch_sub-fetch_add s.compressed_bytes_saved saved h.compressed l;
          deduplicated = fetch_sub-fetch_add s.dedup_bytes_saved shared h.deduplicated m;
        }
