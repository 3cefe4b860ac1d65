-- ===== src/Resource.antt =====
-- include/resources.hpp: `GlobalIDGenerator`, `Resource` and `ResourceAccess`.
pub mod Ids
use rg.Prelude.{ℕ, zero, suc, ◌==◌, if◌then◌else◌}
use rg.Access.{AccessMode, read, write}
use rg.Node.{ResourceNode, init}
use rg.WaitCounter.{add32}
use rg.Dispatch.{Argument, access, set_node}

-- What a resource holds: a value, or a reference to an object, by its address.
pub data Storage {ℓ} (T : Type ℓ) : Type ℓ where
  value : T → Storage T
  reference : ℕ → Storage T

-- A resource, its node by the address that its shared pointer holds.
pub record Res {ℓ} (T : Type ℓ) : Type ℓ where
  pub storage : Storage T
  pub user_queue : ℕ

pub record ResourceAccess {ℓ} (T : Type ℓ) : Type ℓ where
  pub resource : Res T
  pub access_mode : AccessMode

-- `id_counter`, and the nodes.
pub record Heap : Type 0 where
  pub id_counter : ℕ
  pub nodes : ℕ → ResourceNode

-- `GlobalIDGenerator::generate_id`
unfoldable pub generate_id : Heap → Heap × ℕ
generate_id h = (record h { id_counter = add32 h.id_counter 1 }, h.id_counter)

module _ {ℓ} {T : Type ℓ} where
  -- The constructors of `Resource`, with the node that the member initialiser makes at an address.
  unfoldable pub create : ℕ → Storage T → Heap → Heap × Res T
  unfolding generate_id
  create a storage h =
      let (h', id) = generate_id h in
      (
        record h' { nodes = set_node h'.nodes a (init id) },
        record { storage = storage; user_queue = a },
      )

  -- `Resource::get`, with the objects by address
  unfoldable pub get : (ℕ → T) → Res T → T
  get objects r = elim r.storage [ value v ↦ v | reference a ↦ objects a ]

  unfoldable pub rg_read : Res T → ResourceAccess T
  rg_read r = record { resource = r; access_mode = read }

  unfoldable pub rg_write : Res T → ResourceAccess T
  rg_write r = record { resource = r; access_mode = write }

  -- `ResourceAccess::getID`
  unfoldable pub get_id : Heap → ResourceAccess T → ℕ
  get_id h acc = (h.nodes acc.resource.user_queue).resource_uid

  -- What `dispatch_task` makes of an access, by `getUserQueue` and `getAccessMode`.
  unfoldable pub argument_of : ResourceAccess T → Argument
  argument_of acc = access acc.resource.user_queue acc.access_mode

  -- The heap when `k` resources have been created.
  unfoldable pub created : (ℕ → ℕ) → (ℕ → Storage T) → ℕ → Heap → Heap
  unfolding create
  created addresses storages zero h = h
  created addresses storages (suc k) h =
      (create (addresses k) (storages k) (created addresses storages k h)).0
