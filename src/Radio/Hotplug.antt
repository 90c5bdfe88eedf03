-- ===== src/Radio/Hotplug.antt =====
-- Which devices that appear on the USB bus are HackRFs, `watch_for_arrivals` of
-- proxyd/src/radio.rs.
use hackrf_proxy.Base.{ℕ, Bool, false, List, [], ◌∷◌, ◌==◌, ◌&&◌, ◌||◌, if◌then◌else◌}

abbrev pub hackrf_vendor_id : ℕ
hackrf_vendor_id = 7504

-- 0x6089, 0x604b and 0xcc15
abbrev pub hackrf_product_ids : List ℕ
hackrf_product_ids = 24713 ∷ 24651 ∷ 52245 ∷ []

pub data HotplugEvent : Type 0 where
  connected : ℕ → ℕ → HotplugEvent
  disconnected : HotplugEvent

unfoldable pub contains : List ℕ → ℕ → Bool
contains [] id = false
contains (x ∷ xs) id = (x == id) || contains xs id

unfoldable pub is_hackrf : HotplugEvent → Bool
unfolding contains
is_hackrf (connected vendor product) =
    (vendor == hackrf_vendor_id) && contains hackrf_product_ids product
is_hackrf disconnected = false

-- The `filter_map`, over what the watch has seen.
unfoldable pub arrivals : List HotplugEvent → List (Unit {0})
unfolding is_hackrf
arrivals [] = []
arrivals (e ∷ es) = let rest = arrivals es in if is_hackrf e then tt ∷ rest else rest
