-- ===== src/Vfio.antt =====
-- include/porth/PorthVFIODevice.hpp: claiming and releasing a PCIe device. The results of the system calls are the
-- argument `Os`, the address of the device only words the messages.
pub mod Ownership
use porth_core.Base.{ℕ, Bool, Option, none, some, List, [], ◌∷◌, ◌++◌, not, if◌then◌else◌}
use porth_core.Resource.{Resource, Event, acquire, release, mapping, file}

-- What the calls of one construction return: the two `open`s and VFIO_GROUP_GET_DEVICE_FD (`none` below 0); whether
-- VFIO_GET_API_VERSION is VFIO_API_VERSION; whether the link of the IOMMU group exists, and the number that it
-- names (`none` where reading it throws); whether the other ioctls are not below 0; the size that
-- VFIO_DEVICE_GET_REGION_INFO writes; and mmap's pointer (`none` for MAP_FAILED).
pub record Os : Type 0 where
  pub open_container : Option ℕ
  pub api_version : Bool
  pub iommu_exists : Bool
  pub iommu_link : Option ℕ
  pub open_group : Option ℕ
  pub set_container : Bool
  pub set_iommu : Bool
  pub get_device_fd : Option ℕ
  pub get_region_info : Bool
  pub region_size : ℕ
  pub mmap : Option ℕ

-- The fields; `none` for the -1 and the null that they are initialised with.
pub record VfioDevice : Type 0 where
  pub container_fd : Option ℕ
  pub group_fd : Option ℕ
  pub device_fd : Option ℕ
  pub bar_ptr : Option ℕ
  pub bar_size : ℕ

-- The exceptions, in the order in which they are thrown.
pub data Error : Type 0 where
  no_container bad_version no_iommu_group bad_iommu_link no_group : Error
  container_refused iommu_refused no_device no_region no_mapping : Error

pub data Outcome : Type 0 where
  built : VfioDevice → Outcome
  thrown : Error → Outcome

abbrev pub fd : ℕ → Resource
fd n = record { kind = file; handle = n; size = 0 }

abbrev pub bar : ℕ → ℕ → Resource
bar p size = record { kind = mapping; handle = p; size = size }

abbrev pub because : Error → List Event × Outcome
because e = ([], thrown e)

-- An event before the others.
abbrev pub first : Event → List Event × Outcome → List Event × Outcome
first e (es, out) = (e ∷ es, out)

unfoldable pub get_iommu_group : Os → Option ℕ
get_iommu_group os = if os.iommu_exists then os.iommu_link else none

-- Step 6, from the region's information.
unfoldable pub map_bar0 : Os → ℕ → ℕ → ℕ → List Event × Outcome
map_bar0 os container group device =
    if not os.get_region_info then because no_region else elim os.mmap [
      | none ↦ because no_mapping
      | some p ↦
          let d : VfioDevice = record {
            container_fd = some container;
            group_fd = some group;
            device_fd = some device;
            bar_ptr = some p;
            bar_size = os.region_size;
          } in
          (acquire (bar p os.region_size) ∷ [], built d)
    ]

-- Steps 3 to 5, from the open group.
unfoldable pub join_container : Os → ℕ → ℕ → List Event × Outcome
unfolding map_bar0
join_container os container group =
    if not os.set_container
    then because container_refused
    else if not os.set_iommu
    then because iommu_refused
    else elim os.get_device_fd [
      | none ↦ because no_device
      | some device ↦ first (acquire (fd device)) (map_bar0 os container group device)
    ]

unfoldable pub create : Os → List Event × Outcome
unfolding get_iommu_group join_container
create os = elim os.open_container [
  | none ↦ because no_container
  | some container ↦ first (acquire (fd container)) (
      if not os.api_version then because bad_version else elim (get_iommu_group os) [
        | none ↦ because (if os.iommu_exists then bad_iommu_link else no_iommu_group)
        | some _ ↦ elim os.open_group [
          | none ↦ because no_group
          | some group ↦ first (acquire (fd group)) (join_container os container group)
        ]
      ])
]

abbrev close_fd : Option ℕ → List Event
close_fd none = []
close_fd (some n) = release (fd n) ∷ []

abbrev unmap_bar : Option ℕ → ℕ → List Event
unmap_bar none size = []
unmap_bar (some p) size = release (bar p size) ∷ []

-- The destructor.
unfoldable pub destroy : VfioDevice → List Event
destroy d =
    unmap_bar d.bar_ptr d.bar_size
    ++ (close_fd d.device_fd ++ (close_fd d.group_fd ++ close_fd d.container_fd))

-- One mapping that the IOMMU holds.
pub record DmaMap : Type 0 where
  pub iova : ℕ
  pub vaddr : ℕ
  pub size : ℕ

-- `map_dma`: the address for the hardware and the mappings behind the call; `none` where it throws.
-- `accepted` is whether VFIO_IOMMU_MAP_DMA is not below 0.
unfoldable pub map_dma : Bool → ℕ → ℕ → List DmaMap → Option (ℕ × List DmaMap)
map_dma accepted vaddr size held =
    if accepted
    then some (vaddr, record { iova = vaddr; vaddr = vaddr; size = size } ∷ held)
    else none
