-- ===== src/Module.antt =====
-- toolkit/source/module: the factories of plugs under their names, and the loader of drivers. The
-- dynamic loader of the system is a parameter.
pub mod Loading
use m_toolkit.Base.{ℕ, Option, none, some, List, [], ◌∷◌, ◌++◌}
use m_toolkit.Base.Maps.{find}

-- Names of plugs are only compared, so a name is a number, and so are factory functions, plugs, paths
-- and handles. `none` is the empty function, or no plug.
abbrev pub PlugMap : Type 0
PlugMap = List (ℕ × Option ℕ)

unfoldable pub get_device_base_class : (name : ℕ) → PlugMap → Option ℕ
get_device_base_class name plug_map = elim (find name plug_map) [ none ↦ none | some plug ↦ plug ]

unfoldable pub register_plug_factory : (plug_name : ℕ) (plug : Option ℕ) → PlugMap → PlugMap
register_plug_factory plug_name plug f_map = elim (find plug_name f_map) [
  | some _ ↦ f_map
  | none ↦ (plug_name, plug) ∷ f_map
]

-- The registrations of a program, first to last.
unfoldable pub register_all : List (ℕ × Option ℕ) → PlugMap → PlugMap
register_all [] f_map = f_map
register_all ((plug_name, plug) ∷ plugs) f_map =
    register_all plugs (register_plug_factory plug_name plug f_map)

-- `dlsym` gives the map that the library's GetDeviceBaseClass reads, if the library has one.
pub record DynamicLoader (S : Type 0) : Type 0 where
  pub dlopen : ℕ → S → Option ℕ × S
  pub dlsym : ℕ → S → Option PlugMap
  pub dlclose : ℕ → S → S

module _ {S : Type 0} (calls : DynamicLoader S) (make : ℕ → Option ℕ) where
  -- With a function found, `make` is its call; without, the library is closed.
  unfoldable pub call_or_close : (handle : ℕ) (func : Option ℕ) → S → Option ℕ × S
  call_or_close handle none s = (none, calls.dlclose handle s)
  call_or_close handle (some func) s = (make func, s)

  unfoldable pub load_from : (handle : Option ℕ) (driver_name : ℕ) → S → Option ℕ × S
  load_from none driver_name s = (none, s)
  load_from (some handle) driver_name s = elim (calls.dlsym handle s) [
    | none ↦ (none, calls.dlclose handle s)
    | some plug_map ↦ call_or_close handle (get_device_base_class driver_name plug_map) s
  ]

  unfoldable pub load_driver : (driver_path driver_name : ℕ) → S → Option ℕ × S
  load_driver driver_path driver_name s =
      let (handle, s) = calls.dlopen driver_path s in load_from handle driver_name s
