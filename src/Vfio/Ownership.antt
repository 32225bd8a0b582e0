-- ===== src/Vfio/Ownership.antt =====
-- What the VFIO device's constructor and destructor acquire and release, and what the hardware's addresses
-- stand for behind map_dma.
use porth_core.Base.{
  ℕ, ◌+◌, ◌-◌, ◌<◌, ◌≡◌, ◌⊎◌, refl, inl, inr, arith, true, false, Bool, List, [], ◌∷◌, ◌++◌, none,
  some, Option, ◌&&◌, if◌then◌else◌, leb, ltb, length,
}
use porth_core.Resource.{same_self, Resource, Event, acquire, release, settle}
use porth_core.Vfio

-- The descriptors that stay open when the constructor throws.
abbrev pub left_open : Vfio.Error → ℕ
left_open Vfio.no_container = 0
left_open Vfio.bad_version = 1
left_open Vfio.no_iommu_group = 1
left_open Vfio.bad_iommu_link = 1
left_open Vfio.no_group = 1
left_open Vfio.container_refused = 2
left_open Vfio.iommu_refused = 2
left_open Vfio.no_device = 2
left_open Vfio.no_region = 3
left_open Vfio.no_mapping = 3

-- What the ledger says after a constructor, by its outcome: a built object holds the three descriptors and the
-- mapping of the registers, and its destructor gives exactly those back; an exception leaves the
-- descriptors of `left_open` behind, and no mapping.
abbrev pub Accounted : List Event × Vfio.Outcome → Type 0
Accounted (es, Vfio.built d) = (length es ≡ 4) × (settle (es ++ Vfio.destroy d) [] ≡ some [])
Accounted (es, Vfio.thrown e) =
    (held : List Resource) × (settle es [] ≡ some held) × (length held ≡ left_open e)

settle_opened :
    (container group device : ℕ) (p size : ℕ)
    → settle
        (acquire (Vfio.fd container)
          ∷ acquire (Vfio.fd group)
          ∷ acquire (Vfio.fd device)
          ∷ acquire (Vfio.bar p size)
          ∷ release (Vfio.bar p size)
          ∷ release (Vfio.fd device)
          ∷ release (Vfio.fd group)
          ∷ release (Vfio.fd container)
          ∷ [])
        []
      ≡ some []
settle_opened container group device p size =
    rw
      (
        same_self (Vfio.bar p size),
        same_self (Vfio.fd device),
        same_self (Vfio.fd group),
        same_self (Vfio.fd container),
        settle,
      )
      refl

-- The ledger, result by result in the order of the calls.
by_result :
    (oc : Option ℕ) (version exists_ : Bool) (link og : Option ℕ) (container iommu : Bool)
    (dev : Option ℕ) (info : Bool) (size : ℕ) (at : Option ℕ)
    → Accounted (
        Vfio.create (record {
          open_container = oc;
          api_version = version;
          iommu_exists = exists_;
          iommu_link = link;
          open_group = og;
          set_container = container;
          set_iommu = iommu;
          get_device_fd = dev;
          get_region_info = info;
          region_size = size;
          mmap = at;
        }))
unfolding Vfio.create Vfio.get_iommu_group Vfio.join_container Vfio.map_bar0 Vfio.destroy
by_result none v x k g c i d r n m = ([], refl, refl)
by_result (some o) false x k g c i d r n m = (_, refl, refl)
by_result (some o) true false k g c i d r n m = (_, refl, refl)
by_result (some o) true true none g c i d r n m = (_, refl, refl)
by_result (some o) true true (some k) none c i d r n m = (_, refl, refl)
by_result (some o) true true (some k) (some g) false i d r n m = (_, refl, refl)
by_result (some o) true true (some k) (some g) true false d r n m = (_, refl, refl)
by_result (some o) true true (some k) (some g) true true none r n m = (_, refl, refl)
by_result (some o) true true (some k) (some g) true true (some d) false n m = (_, refl, refl)
by_result (some o) true true (some k) (some g) true true (some d) true n none = (_, refl, refl)
by_result (some o) true true (some k) (some g) true true (some d) true n (some p) =
    (refl, settle_opened o g d p n)

-- Whatever the system calls return, the ledger of the constructor comes out as `Accounted` says: an object
-- acquires the container, the group, the device and the registers' mapping, and its destructor gives back
-- exactly these; an exception leaves open the descriptors that `left_open` counts for it.
pub create-Accounted : (os : Vfio.Os) → Accounted (Vfio.create os)
create-Accounted os =
    by_result os.open_container os.api_version os.iommu_exists os.iommu_link os.open_group
      os.set_container os.set_iommu os.get_device_fd os.get_region_info os.region_size os.mmap

-- What an address of the hardware stands for: the place in the newest mapping that holds it.
abbrev pub translate : List Vfio.DmaMap → ℕ → Option ℕ
translate [] a = none
translate (m ∷ ms) a =
    let rest = translate ms a in
    if leb m.iova a && ltb a (m.iova + m.size) then some (m.vaddr + (a - m.iova)) else rest

-- Where the IOMMU has accepted the region of a buffer, the address that map_dma returns for the hardware is
-- the buffer's own, and every address of the buffer stands for itself, whatever was mapped before; a
-- refused call returns no address.
pub map_dma-identity :
    (accepted : Bool) (vaddr size : ℕ) (held : List Vfio.DmaMap) (i : ℕ)
    → i < size
    → ((accepted ≡ false) × (Vfio.map_dma accepted vaddr size held ≡ none))
      ⊎ ((maps : List Vfio.DmaMap) × (Vfio.map_dma accepted vaddr size held ≡ some (vaddr, maps))
          × (translate maps (vaddr + i) ≡ some (vaddr + i)))
unfolding Vfio.map_dma
map_dma-identity false vaddr size held i h = inl (refl, refl)
map_dma-identity true vaddr size held i h = inr (_, refl, ground arith)
