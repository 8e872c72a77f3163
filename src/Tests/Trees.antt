-- ===== src/Tests/Trees.antt =====
-- Sequences of calls and deleted directories at concrete stores.
use shadowfs.Base.{◌≡◌, [], ◌∷◌, ◌++◌, none}
use shadowfs.Path.{join}
use shadowfs.Path.Buf.{normal}
use shadowfs.Path.Chars.{text}
use shadowfs.Store.{OverrideStore, default_config}
use shadowfs.Store.Calls.{run}
use shadowfs.Store.Coherence.{stored}
use shadowfs.Store.Deletion.{after_delete, stored-delete_directory-sibling}
use shadowfs.Store.Keyed.{IsKeyed, run-IsKeyed}
use shadowfs.Tests.{top}
use shadowfs.Tests.Stores.{env, fresh, calls}

run-IsKeyed_example : IsKeyed env (run env calls fresh)
run-IsKeyed_example = run-IsKeyed env calls (default_config env)

abbrev used : OverrideStore env
used = run env calls fresh

stored-delete_directory-sibling_example :
    stored env
      (join top (normal (text "docs" ++ b'2' ∷ []) ∷ []))
      (after_delete env (join top (normal (text "docs") ∷ [])) used)
    ≡ none
stored-delete_directory-sibling_example =
    stored-delete_directory-sibling env top b'2' (text "docs") [] used tt
