-- ===== src/Tests.antt =====
-- Concrete paths, on which the modules below apply the theorems and run the definitions.
mod Paths
mod Parts
mod Stores
mod Trees
mod Logs
mod Locks
mod Rules
mod Attributes
mod Files
mod Contents
use shadowfs.Base.{List, [], ◌∷◌}
use shadowfs.Path.{ShadowPath}
use shadowfs.Path.Buf.{root_dir, normal}
use shadowfs.Path.Chars.{text}

abbrev pub docs : ShadowPath
docs = record { inner = root_dir ∷ normal (text "docs") ∷ [] }

abbrev pub tmp : ShadowPath
tmp = record { inner = root_dir ∷ normal (text "tmp") ∷ [] }

abbrev pub top : ShadowPath
top = record { inner = root_dir ∷ [] }
