-- ===== src/Metadata/Permissions.antt =====
-- `FilePermissions` of types/metadata.rs and the Unix mode bits.
use Prim.Native.Nat.{bit_and, bit_or}
use shadowfs.Base.{
  ℕ, zero, suc, ◌<◌, ◌≡◌, refl, sym, ap, ◌∙◌, subst, ◌↔◌, arith, Bool, true, false, not, ◌==◌, ◌||◌,
  ◌&&◌, if◌then◌else◌,
}

pub record FilePermissions : Type 0 where
  pub readonly : Bool
  pub owner_read : Bool
  pub owner_write : Bool
  pub owner_execute : Bool
  pub group_read : Bool
  pub group_write : Bool
  pub group_execute : Bool
  pub other_read : Bool
  pub other_write : Bool
  pub other_execute : Bool

abbrev has_bit : ℕ → ℕ → Bool
has_bit mode bit = not (bit_and mode bit == 0)

unfoldable pub from_unix_mode : ℕ → FilePermissions
from_unix_mode mode = record {
  readonly = bit_and mode 0o200 == 0;
  owner_read = has_bit mode 0o400;
  owner_write = has_bit mode 0o200;
  owner_execute = has_bit mode 0o100;
  group_read = has_bit mode 0o040;
  group_write = has_bit mode 0o020;
  group_execute = has_bit mode 0o010;
  other_read = has_bit mode 0o004;
  other_write = has_bit mode 0o002;
  other_execute = has_bit mode 0o001;
}

-- `if test { mode |= bit; }`
abbrev set_bit : Bool → ℕ → ℕ → ℕ
set_bit test bit mode = if test then bit_or mode bit else mode

unfoldable pub to_unix_mode : FilePermissions → ℕ
to_unix_mode p = set_bit p.other_execute 0o001 (
    set_bit p.other_write 0o002 (
      set_bit p.other_read 0o004 (
        set_bit p.group_execute 0o010 (
          set_bit p.group_write 0o020 (
            set_bit p.group_read 0o040 (
              set_bit p.owner_execute 0o100
                (set_bit p.owner_write 0o200 (set_bit p.owner_read 0o400 0))))))))

unfoldable pub is_executable : FilePermissions → Bool
is_executable p = p.owner_execute || p.group_execute || p.other_execute

abbrev pub default_file : FilePermissions
unfolding from_unix_mode
default_file = from_unix_mode 0o644

abbrev pub default_directory : FilePermissions
unfolding from_unix_mode
default_directory = from_unix_mode 0o755

-- Whether every mode below a limit survives.
modes_kept : ℕ → Bool
modes_kept zero = true
modes_kept (suc mode) =
    if to_unix_mode (from_unix_mode mode) == mode then modes_kept mode else false

modes_kept-mode :
    (limit mode : ℕ)
    → modes_kept limit ≡ true
    → mode < limit
    → to_unix_mode (from_unix_mode mode) ≡ mode
unfolding modes_kept
modes_kept-mode zero mode h lt = absurd (omega arith)
modes_kept-mode (suc limit) mode h lt = ground (arith, modes_kept-mode limit mode)

modes_kept-512 : modes_kept 512 ≡ true
unfolding modes_kept to_unix_mode from_unix_mode
modes_kept-512 = refl

-- The nine permission bits of a mode below 512 survive the way to `FilePermissions` and back.
pub to-from_unix_mode : (mode : ℕ) → mode < 512 → to_unix_mode (from_unix_mode mode) ≡ mode
to-from_unix_mode mode h = modes_kept-mode 512 mode modes_kept-512 h

all_bools : (Bool → Bool) → Bool
all_bools p = p true && p false

and_true : (a b : Bool) → (a && b) ≡ true → (a ≡ true) × (b ≡ true)
and_true a b h = ground arith

all_bools_sound : (p : Bool → Bool) → all_bools p ≡ true → (b : Bool) → p b ≡ true
unfolding all_bools
all_bools_sound p h true = (and_true (p true) (p false) h).0
all_bools_sound p h false = (and_true (p true) (p false) h).1

same : Bool → Bool → Bool
same true b = b
same false b = not b

same_sound : (a b : Bool) → same a b ≡ true → a ≡ b
unfolding same
same_sound a b h = ground arith

-- The flags in the order of the bits, with `readonly` as the negation of the owner's write bit.
flags : Bool → Bool → Bool → Bool → Bool → Bool → Bool → Bool → Bool → FilePermissions
flags r w x gr gw gx or ow ox = record {
  readonly = not w;
  owner_read = r;
  owner_write = w;
  owner_execute = x;
  group_read = gr;
  group_write = gw;
  group_execute = gx;
  other_read = or;
  other_write = ow;
  other_execute = ox;
}

same_flags : FilePermissions → FilePermissions → Bool
same_flags p q =
    same p.readonly q.readonly
    && (same p.owner_read q.owner_read
        && (same p.owner_write q.owner_write
            && (same p.owner_execute q.owner_execute
                && (same p.group_read q.group_read
                    && (same p.group_write q.group_write
                        && (same p.group_execute q.group_execute
                            && (same p.other_read q.other_read
                                && (same p.other_write q.other_write
                                    && (same p.other_execute q.other_execute)))))))))

same_flags_sound : (p q : FilePermissions) → same_flags p q ≡ true → p ≡ q
unfolding same_flags
same_flags_sound p q h =
    let h0 = and_true (same p.readonly q.readonly) _ h in
    let h1 = and_true (same p.owner_read q.owner_read) _ h0.1 in
    let h2 = and_true (same p.owner_write q.owner_write) _ h1.1 in
    let h3 = and_true (same p.owner_execute q.owner_execute) _ h2.1 in
    let h4 = and_true (same p.group_read q.group_read) _ h3.1 in
    let h5 = and_true (same p.group_write q.group_write) _ h4.1 in
    let h6 = and_true (same p.group_execute q.group_execute) _ h5.1 in
    let h7 = and_true (same p.other_read q.other_read) _ h6.1 in
    let h8 = and_true (same p.other_write q.other_write) _ h7.1 in
    λ i. record {
      readonly = same_sound p.readonly q.readonly h0.0 i;
      owner_read = same_sound p.owner_read q.owner_read h1.0 i;
      owner_write = same_sound p.owner_write q.owner_write h2.0 i;
      owner_execute = same_sound p.owner_execute q.owner_execute h3.0 i;
      group_read = same_sound p.group_read q.group_read h4.0 i;
      group_write = same_sound p.group_write q.group_write h5.0 i;
      group_execute = same_sound p.group_execute q.group_execute h6.0 i;
      other_read = same_sound p.other_read q.other_read h7.0 i;
      other_write = same_sound p.other_write q.other_write h8.0 i;
      other_execute = same_sound p.other_execute q.other_execute h8.1 i;
    }

unfoldable all_flags : (FilePermissions → Bool) → Bool
all_flags f = all_bools λ r. all_bools λ w. all_bools λ x. all_bools λ gr. all_bools λ gw.
    all_bools
      λ gx. all_bools λ or. all_bools λ ow. all_bools λ ox. f (flags r w x gr gw gx or ow ox)

all_flags_sound :
    (f : FilePermissions → Bool)
    → all_flags f ≡ true
    → (r w x gr gw gx or ow ox : Bool) → f (flags r w x gr gw gx or ow ox) ≡ true
unfolding all_flags
all_flags_sound f h r w x gr gw gx or ow ox =
    let h1 = all_bools_sound _ (all_bools_sound _ (all_bools_sound _ h r) w) x in
    let h2 = all_bools_sound _ (all_bools_sound _ (all_bools_sound _ h1 gr) gw) gx in
    all_bools_sound _ (all_bools_sound _ (all_bools_sound _ h2 or) ow) ox

flags_table : all_flags (λ p. same_flags (from_unix_mode (to_unix_mode p)) p) ≡ true
unfolding all_flags all_bools same_flags same flags to_unix_mode from_unix_mode
flags_table = refl

flags_kept :
    (r w x gr gw gx or ow ox : Bool)
    → from_unix_mode (to_unix_mode (flags r w x gr gw gx or ow ox)) ≡ flags r w x gr gw gx or ow ox
flags_kept r w x gr gw gx or ow ox = same_flags_sound _ _ (
    all_flags_sound (λ p. same_flags (from_unix_mode (to_unix_mode p)) p) flags_table r w x gr gw gx
      or ow ox)

eq-flags :
    (p : FilePermissions)
    → p.readonly ≡ not p.owner_write
    → flags p.owner_read p.owner_write p.owner_execute p.group_read p.group_write p.group_execute
        p.other_read p.other_write p.other_execute
      ≡ p
unfolding flags
eq-flags p h = λ i. record p { readonly = sym h i }

kept : (p : FilePermissions) → p.readonly ≡ not p.owner_write → from_unix_mode (to_unix_mode p) ≡ p
kept p h =
    subst (λ q. from_unix_mode (to_unix_mode q) ≡ q) (eq-flags p h) (flags_kept _ _ _ _ _ _ _ _ _)

-- The mode does not depend on `readonly`.
kept_readonly :
    (p : FilePermissions) → from_unix_mode (to_unix_mode p) ≡ p → p.readonly ≡ not p.owner_write
kept_readonly p e =
    let q = record p { readonly = not p.owner_write } in
    let same_mode : from_unix_mode (to_unix_mode q) ≡ from_unix_mode (to_unix_mode p) =
      unfold to_unix_mode in refl in
    ap (λ (r : FilePermissions). r.readonly) (sym e ∙ sym same_mode ∙ kept q refl)

-- Permissions survive the way to a mode and back exactly where `readonly` is the negation of the
-- owner's write flag.
pub from-to_unix_mode :
    (p : FilePermissions) → (from_unix_mode (to_unix_mode p) ≡ p) ↔ (p.readonly ≡ not p.owner_write)
from-to_unix_mode p = (kept_readonly p, kept p)
