-- ===== src/Optimization/Prefetch.antt =====
-- `DirectoryPrefetcher` of override_store/optimization.rs.
use shadowfs.Base.{List, [], map}
use shadowfs.Path.{ShadowPath, join}
use shadowfs.Path.Chars.{Text}
use shadowfs.Path.Buf.{components}

pub data PrefetchStrategy : Type 0 where
  none children recursive : PrefetchStrategy

-- `DirectoryPrefetcher` holds its strategy only. The recursive one lists the children too.
unfoldable pub get_prefetch_paths : PrefetchStrategy → ShadowPath → List Text → List ShadowPath
get_prefetch_paths PrefetchStrategy.none directory_path available_children = []
get_prefetch_paths children directory_path available_children =
    map (λ child. join directory_path (components child)) available_children
get_prefetch_paths recursive directory_path available_children =
    map (λ child. join directory_path (components child)) available_children
