-- ===== src/Config/Desktops.antt =====
-- Which files are loaded, and whose desktop a primary gets.
use ups_orchestrator.Prelude.{
  ◌≡◌, refl, ◌∙◌, ap, sym, String, Bool, true, false, not, ◌&&◌, ◌||◌, ◌⊎◌, Option, none, some,
  List, [], ◌∷◌, arith, any, length, leb, select, eq_iff, is_some, str_eq, inl, inr, Bool-cases,
  map, if◌then◌else◌,
}
use ups_orchestrator.Config.{UpsDeviceConfig, DesktopConfig, is_observer, primary, observer}
use ups_orchestrator.Config.Loading.{
  RawDevice, Loaded, loaded, refused, parse_role, role_text, load_device, load_entries, add,
  needs_desktop, inherit_one, inherit, inherit_all, load_ups_devices,
}

abbrev pub is_loaded : {A : Type 0} → Loaded A → Bool
is_loaded (loaded a) = true
is_loaded (refused e) = false

-- What the file says: a device has a role that is known, it is an observer, or it is a primary with
-- no desktop of its own.
abbrev pub has_role : RawDevice → Bool
has_role r = str_eq (role_text r) "primary" || str_eq (role_text r) "observer"

abbrev pub observes : RawDevice → Bool
observes r = str_eq (role_text r) "observer"

abbrev pub lacks_desktop : RawDevice → Bool
lacks_desktop r = not (observes r) && not (is_some r.desktop)

add-is_loaded :
    (d : Loaded UpsDeviceConfig) (ds : Loaded (List UpsDeviceConfig))
    → is_loaded (add d ds) ≡ is_loaded d && is_loaded ds
add-is_loaded d ds = ground arith

-- What the first loop keeps of the entries.
Keeps : List RawDevice → Loaded (List UpsDeviceConfig) → Type 0
Keeps rs (refused e) = any (λ r. not (has_role r)) rs ≡ true
Keeps rs (loaded ds) =
    (any (λ r. not (has_role r)) rs ≡ false)
    × (length (select is_observer ds) ≡ length (select observes rs))
    × (any needs_desktop ds ≡ any lacks_desktop rs)

KeepsOne : RawDevice → Loaded UpsDeviceConfig → Type 0
KeepsOne r (refused e) = has_role r ≡ false
KeepsOne r (loaded d) =
    (has_role r ≡ true) × (is_observer d ≡ observes r) × (needs_desktop d ≡ lacks_desktop r)

parse_role-cases :
    (text : String)
    → let p = str_eq text "primary" in
      let o = str_eq text "observer" in
      ((parse_role text ≡ some primary) × (p ≡ true) × (o ≡ false))
      ⊎ (((parse_role text ≡ some observer) × (p ≡ false) × (o ≡ true))
          ⊎ ((parse_role text ≡ none) × (p ≡ false) × (o ≡ false)))
unfolding parse_role
parse_role-cases text = elim (Bool-cases (str_eq text "primary")) [
  | inl e ↦
      let same : text ≡ "primary" = ground (arith, eq_iff text "primary") in rw same (ground arith)
  | inr e ↦ elim (Bool-cases (str_eq text "observer")) [
    | inl o ↦ ground arith
    | inr o ↦ ground arith
  ]
]

load_device-KeepsOne : (r : RawDevice) → KeepsOne r (load_device r)
unfolding KeepsOne load_device
load_device-KeepsOne r = elim (parse_role-cases (role_text r)) [
  | inl (e, p, o) ↦ rw e (ground arith)
  | inr (inl (e, p, o)) ↦ rw e (ground arith)
  | inr (inr (e, p, o)) ↦ rw e (ground arith)
]

add-Keeps :
    (r : RawDevice) (rs : List RawDevice) (d : Loaded UpsDeviceConfig)
    (ds : Loaded (List UpsDeviceConfig))
    → KeepsOne r d
    → Keeps rs ds
    → Keeps (r ∷ rs) (add d ds)
unfolding Keeps KeepsOne
add-Keeps r rs (refused e) ds h hs = ground arith
add-Keeps r rs (loaded d) (refused e) h hs = ground arith
add-Keeps r rs (loaded d) (loaded ds) h hs = ground arith

load_entries-Keeps : (rs : List RawDevice) → Keeps rs (load_entries rs)
unfolding Keeps load_entries
load_entries-Keeps [] = (refl, refl, refl)
load_entries-Keeps (r ∷ rs) =
    add-Keeps r rs (load_device r) (load_entries rs) (load_device-KeepsOne r)
      (load_entries-Keeps rs)

inherit-is_loaded :
    (os ds : List UpsDeviceConfig)
    → is_loaded (inherit os ds) ≡ not (any needs_desktop ds) || leb (length os) 1
unfolding inherit inherit_one
inherit-is_loaded os [] = refl
inherit-is_loaded [] (d ∷ ds) =
    ground (arith, add-is_loaded (inherit_one [] d) (inherit [] ds), inherit-is_loaded [] ds)
inherit-is_loaded (o ∷ []) (d ∷ ds) = ground (
  arith,
  add-is_loaded (inherit_one (o ∷ []) d) (inherit (o ∷ []) ds),
  inherit-is_loaded (o ∷ []) ds,
)
inherit-is_loaded (o ∷ p ∷ os) (d ∷ ds) = ground (
  arith,
  add-is_loaded (inherit_one (o ∷ p ∷ os) d) (inherit (o ∷ p ∷ os) ds),
  inherit-is_loaded (o ∷ p ∷ os) ds,
)

entries-is_loaded :
    (rs : List RawDevice) (o : Loaded (List UpsDeviceConfig))
    → Keeps rs o
    → is_loaded (inherit_all o)
      ≡ not (any (λ r. not (has_role r)) rs)
        && (not (any lacks_desktop rs) || leb (length (select observes rs)) 1)
unfolding Keeps
entries-is_loaded rs (refused e) h = ground arith
entries-is_loaded rs (loaded ds) h = ground (arith, inherit-is_loaded (select is_observer ds) ds)

-- A configuration file is loaded exactly when every role in it is known, and no primary is without a
-- desktop or there is at most one observer to inherit one from.
pub load_ups_devices-is_loaded :
    (rs : List RawDevice)
    → is_loaded (load_ups_devices rs)
      ≡ not (any (λ r. not (has_role r)) rs)
        && (not (any lacks_desktop rs) || leb (length (select observes rs)) 1)
unfolding load_ups_devices
load_ups_devices-is_loaded rs = entries-is_loaded rs (load_entries rs) (load_entries-Keeps rs)

-- The desktop that a device has once the file is loaded.
abbrev expected_desktop : List UpsDeviceConfig → UpsDeviceConfig → Option DesktopConfig
expected_desktop [] d = d.desktop
expected_desktop (o ∷ _) d = if needs_desktop d then o.desktop else d.desktop

abbrev pub equipped : List UpsDeviceConfig → UpsDeviceConfig → UpsDeviceConfig
equipped os d = record d { desktop = expected_desktop os d }

inherit_one-equipped :
    (os : List UpsDeviceConfig) (d d' : UpsDeviceConfig)
    → inherit_one os d ≡ loaded d'
    → d' ≡ equipped os d
unfolding inherit_one
inherit_one-equipped [] d d' h = ground arith
inherit_one-equipped (o ∷ []) d d' h = ground arith
inherit_one-equipped (o ∷ p ∷ os) d d' h = ground arith

add-loaded :
    (a : Loaded UpsDeviceConfig) (b : Loaded (List UpsDeviceConfig)) (es : List UpsDeviceConfig)
    → add a b ≡ loaded es
    → (d : UpsDeviceConfig) × (ds : List UpsDeviceConfig) × (a ≡ loaded d)
      × (b ≡ loaded ds)
      × (es ≡ d ∷ ds)
add-loaded (loaded d) (loaded ds) es h = (d, ds, refl, refl, ground arith)
add-loaded (loaded d) (refused e) es h = ground arith
add-loaded (refused e) b es h = ground arith

inherit-map :
    (os ds es : List UpsDeviceConfig) → inherit os ds ≡ loaded es → es ≡ map (equipped os) ds
unfolding inherit
inherit-map os [] es h = ground arith
inherit-map os (d ∷ ds) es h =
    let (d', ds', one, rest, e) = add-loaded (inherit_one os d) (inherit os ds) es h in
    ground (arith, inherit_one-equipped os d d' one, inherit-map os ds ds' rest)

-- The devices that are loaded are those of the entries, in their order; a primary without a desktop
-- gets the desktop of the first observer, if there is one, and nothing else changes.
load_ups_devices-map :
    (rs : List RawDevice) (ds es : List UpsDeviceConfig)
    → load_entries rs ≡ loaded ds
    → load_ups_devices rs ≡ loaded es
    → es ≡ map (equipped (select is_observer ds)) ds
unfolding load_ups_devices
load_ups_devices-map rs ds es e h =
    inherit-map (select is_observer ds) ds es (sym (ap inherit_all e) ∙ h)
