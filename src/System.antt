-- ===== src/System.antt =====
-- The process that the emulator runs in: what it holds of memory, files and mappings, and how the
-- initialisers of the source ask for them and give them up on an error.
pub mod Acquires
pub mod Takes
use snesemu.Rom.{Image}
use snesemu.Base.{
  ℕ, zero, suc, ◌+◌, ◌≡◌, refl, Bool, true, false, Option, none, some, Result, ok, err, and_then,
  undefined,
}

-- What is held, as counts, and how many requests there were.
pub record Process : Type 0 where
  pub requests : ℕ
  pub blocks : ℕ
  pub files : ℕ
  pub mappings : ℕ

pub data Resource : Type 0 where
  block file mapping : Resource

abbrev pub Act {ℓ} : Type ℓ → Type ℓ
Act A = Process → Result (A × Process)

module _ {ℓ κ} {A : Type ℓ} {B : Type κ} where
  infixl 5 ◌>>=◌ ◌>>◌
  abbrev pub ◌>>=◌ : Act A → (A → Act B) → Act B
  ◌>>=◌ c f p = and_then (c p) λ r. f r.0 r.1

  abbrev pub ◌>>◌ : Act A → Act B → Act B
  ◌>>◌ c d p = and_then (c p) λ r. d r.1

abbrev pub pure {ℓ} : {A : Type ℓ} → A → Act A
pure a p = ok (a, p)

abbrev pub lift {ℓ} : {A : Type ℓ} → Result A → Act A
lift r p = and_then r λ a. ok (a, p)

abbrev pub hold : Resource → Process → Process
hold Resource.block p = record p { blocks = suc p.blocks }
hold Resource.file p = record p { files = suc p.files }
hold Resource.mapping p = record p { mappings = suc p.mappings }

-- Giving up what is not held is undefined.
abbrev pub drop_one : ℕ → (ℕ → Process) → Result (Unit {0} × Process)
drop_one zero q = err undefined
drop_one (suc n) q = ok (tt, q n)

unfoldable pub release : Resource → Act (Unit {0})
release Resource.block p = drop_one p.blocks λ n. record p { blocks = n }
release Resource.file p = drop_one p.files λ n. record p { files = n }
release Resource.mapping p = drop_one p.mappings λ n. record p { mappings = n }

-- `free`, `close` and `munmap`.
abbrev pub free : Act (Unit {0})
free = release Resource.block

abbrev pub close : Act (Unit {0})
close = release Resource.file

abbrev pub munmap : Act (Unit {0})
munmap = release Resource.mapping

abbrev pub granted {ℓ} : {A : Type ℓ} → Resource → Option A → Act (Option A)
granted r none p = ok (none, record p { requests = suc p.requests })
granted r (some a) p = ok (some a, record (hold r p) { requests = suc p.requests })

-- `if (x == NULL) goto error;`, where `cleanup` is what stands from that label on.
module _ {ℓ κ} {A : Type ℓ} {B : Type κ} where
  abbrev pub or_else : Option A → Act (Unit {0}) → (A → Act (Option B)) → Act (Option B)
  or_else none cleanup k = cleanup >> pure none
  or_else (some a) cleanup k = k a

  abbrev pub attempt : Act (Option A) → Act (Unit {0}) → (A → Act (Option B)) → Act (Option B)
  attempt acquire cleanup k = acquire >>= λ a. or_else a cleanup k

-- What the system grants: to each request of memory a block with contents that are not determined,
-- to the path of the image a file with its size and bytes, and a mapping of it.
pub record Grants : Type 0 where
  pub memory : ℕ → Option (ℕ → ℕ)
  pub image : Option Image
  pub mapped : Option (Unit {0})

abbrev pub malloc : Grants → Act (Option (ℕ → ℕ))
malloc g p = granted Resource.block (g.memory p.requests) p

abbrev pub open_image : Grants → Act (Option Image)
open_image g = granted Resource.file g.image

abbrev pub map_image : Grants → Act (Option (Unit {0}))
map_image g = granted Resource.mapping g.mapped

-- An `int` that a call of the system returns.
pub data ℤ : Type 0 where
  pos negsuc : ℕ → ℤ

abbrev pub is_negative : ℤ → Bool
is_negative (ℤ.pos n) = false
is_negative (ℤ.negsuc n) = true
