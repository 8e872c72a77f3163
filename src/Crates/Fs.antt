-- ===== src/Crates/Fs.antt =====
-- `tokio::fs`, as override_store/persistence.rs uses it on a few files: the content of each file, and
-- what each call leaves of it. A call that fails has done a part of its work at most; no call but a
-- rename touches two files. A write is under way when `write_all` answers, and an error that it then
-- meets is reported by a later write or by `flush`, which the code does not call, and not by `sync_all`.
-- The content of a file is what it is once the writes under way are over: `sync_all` waits for them.
use shadowfs.Base.{ℕ, length, ◌≡◌, Option, none, some, [], ◌++◌, ite, unwrap_or}
use shadowfs.Crates.Codec.{Bytes}
use shadowfs.Error.{IoResult, done, failed, IoError}

pub record Fs {K : Type 0} (dec : Discrete K) : Type 1 where
  pub Disk : Type 0
  pub content : K → Disk → Option Bytes
  pub read_to_end : K → Disk → IoResult (IoResult Bytes)
  pub open_append : K → Disk → IoResult (Unit {0}) × Disk
  pub create : K → Disk → IoResult (Unit {0}) × Disk
  pub write_all : K → Bytes → Disk → IoResult (Unit {0}) × Disk
  pub sync_all : K → Disk → IoResult (Unit {0}) × Disk
  pub rename : K → K → Disk → IoResult (Unit {0}) × Disk
  pub metadata : K → Disk → IoResult ℕ
  -- The size of a file that exists.
  pub metadata-length :
      (k : K) (s : Disk) (n : ℕ)
      → metadata k s ≡ done n
      → (b : Bytes) × (content k s ≡ some b) × (length b ≡ n)
  -- An open file is read whole, or the reading fails.
  pub read-content :
      (k : K) (s : Disk) (b : Bytes) → read_to_end k s ≡ done (done b) → content k s ≡ some b
  pub open_append-content :
      (k j : K) (s : Disk)
      → (open_append k s).0 ≡ done tt
      → content j (open_append k s).1
        ≡ ite (dec j k) (some (unwrap_or (content k s) [])) (content j s)
  pub open_append-failed :
      (k j : K) (s : Disk) (e : IoError)
      → (open_append k s).0 ≡ failed e
      → content j (open_append k s).1 ≡ content j s
  pub create-content :
      (k j : K) (s : Disk)
      → (create k s).0 ≡ done tt
      → content j (create k s).1 ≡ ite (dec j k) (some []) (content j s)
  pub create-other :
      (k j : K) (s : Disk)
      → content j (create k s).1 ≡ ite (dec j k) (content j (create k s).1) (content j s)
  -- What a `flush` of the open file would answer.
  pub flush : K → Disk → IoResult (Unit {0})
  -- What is written is appended: all of the bytes where the call succeeds and a `flush` after it
  -- would succeed.
  pub written : K → Bytes → Disk → Bytes
  pub unwritten : K → Bytes → Disk → Bytes
  pub written-unwritten : (k : K) (b : Bytes) (s : Disk) → written k b s ++ unwritten k b s ≡ b
  pub written-flush :
      (k : K) (b : Bytes) (s : Disk)
      → (write_all k b s).0 ≡ done tt
      → flush k (write_all k b s).1 ≡ done tt
      → unwritten k b s ≡ []
  pub write_all-content :
      (k j : K) (b : Bytes) (s : Disk)
      → content j (write_all k b s).1
        ≡ ite (dec j k) (some (unwrap_or (content k s) [] ++ written k b s)) (content j s)
  pub sync_all-content : (k j : K) (s : Disk) → content j (sync_all k s).1 ≡ content j s
  pub rename-content :
      (k l j : K) (s : Disk)
      → (rename k l s).0 ≡ done tt
      → content j (rename k l s).1 ≡ ite (dec j l) (content k s) (ite (dec j k) none (content j s))
  pub rename-failed :
      (k l j : K) (s : Disk) (e : IoError)
      → (rename k l s).0 ≡ failed e
      → content j (rename k l s).1 ≡ content j s
