-- ===== src/Protocol/Scancode/Codes.antt =====
-- The scan-set-1 table read backwards.
use remotelink.Prelude.{
  ◌<◌, ◌≡◌, refl, Bool, false, not, ◌&&◌, Option, some, none, List, [], ◌∷◌, ◌==◌, if◌then◌else◌,
  arith,
}
use remotelink.Protocol.Scancode.{ScanCode, NamedKey, lookup_scancode, new, extended}

abbrev pub all_keys : List NamedKey
all_keys =
    NamedKey.a ∷ NamedKey.b ∷ NamedKey.c ∷ NamedKey.d ∷ NamedKey.e ∷ NamedKey.f ∷ NamedKey.g
    ∷ NamedKey.h ∷ NamedKey.i ∷ NamedKey.j ∷ NamedKey.k ∷ NamedKey.l ∷ NamedKey.m ∷ NamedKey.n
    ∷ NamedKey.o ∷ NamedKey.p ∷ NamedKey.q ∷ NamedKey.r ∷ NamedKey.s ∷ NamedKey.t ∷ NamedKey.u
    ∷ NamedKey.v ∷ NamedKey.w ∷ NamedKey.x ∷ NamedKey.y ∷ NamedKey.z ∷ NamedKey.digit0
    ∷ NamedKey.digit1 ∷ NamedKey.digit2 ∷ NamedKey.digit3 ∷ NamedKey.digit4 ∷ NamedKey.digit5
    ∷ NamedKey.digit6 ∷ NamedKey.digit7 ∷ NamedKey.digit8 ∷ NamedKey.digit9 ∷ NamedKey.f1
    ∷ NamedKey.f2 ∷ NamedKey.f3 ∷ NamedKey.f4 ∷ NamedKey.f5 ∷ NamedKey.f6 ∷ NamedKey.f7
    ∷ NamedKey.f8 ∷ NamedKey.f9 ∷ NamedKey.f10 ∷ NamedKey.f11 ∷ NamedKey.f12 ∷ NamedKey.control_left
    ∷ NamedKey.control_right ∷ NamedKey.shift_left ∷ NamedKey.shift_right ∷ NamedKey.alt_left
    ∷ NamedKey.alt_right ∷ NamedKey.meta_left ∷ NamedKey.meta_right ∷ NamedKey.caps_lock
    ∷ NamedKey.num_lock ∷ NamedKey.scroll_lock ∷ NamedKey.escape ∷ NamedKey.tab ∷ NamedKey.space
    ∷ NamedKey.enter ∷ NamedKey.backspace ∷ NamedKey.insert ∷ NamedKey.delete ∷ NamedKey.home
    ∷ NamedKey.end ∷ NamedKey.page_up ∷ NamedKey.page_down ∷ NamedKey.arrow_up ∷ NamedKey.arrow_down
    ∷ NamedKey.arrow_left ∷ NamedKey.arrow_right ∷ NamedKey.minus ∷ NamedKey.equal
    ∷ NamedKey.bracket_left ∷ NamedKey.bracket_right ∷ NamedKey.backslash ∷ NamedKey.semicolon
    ∷ NamedKey.quote ∷ NamedKey.backquote ∷ NamedKey.comma ∷ NamedKey.period ∷ NamedKey.slash
    ∷ NamedKey.numpad0 ∷ NamedKey.numpad1 ∷ NamedKey.numpad2 ∷ NamedKey.numpad3 ∷ NamedKey.numpad4
    ∷ NamedKey.numpad5 ∷ NamedKey.numpad6 ∷ NamedKey.numpad7 ∷ NamedKey.numpad8 ∷ NamedKey.numpad9
    ∷ NamedKey.numpad_multiply ∷ NamedKey.numpad_add ∷ NamedKey.numpad_subtract
    ∷ NamedKey.numpad_decimal ∷ NamedKey.numpad_divide ∷ NamedKey.numpad_enter
    ∷ NamedKey.print_screen ∷ NamedKey.pause ∷ NamedKey.context_menu ∷ []

abbrev same_code : ScanCode → Option ScanCode → Bool
same_code s none = false
same_code s (some s') = (s.code == s'.code) && (if s.extended then s'.extended else not s'.extended)

-- The first key of a list that has this code.
unfoldable pub find_key : ScanCode → List NamedKey → Option NamedKey
unfolding lookup_scancode
find_key s [] = none
find_key s (key ∷ keys) =
    let later = find_key s keys in if same_code s (lookup_scancode key) then some key else later

-- Pause is sent as Num Lock.
unfoldable pub canonical : NamedKey → NamedKey
canonical NamedKey.pause = NamedKey.num_lock
canonical key = key

-- Every key has a code of seven bits, and the code determines the key, but for Pause, which has
-- the code of Num Lock.
pub lookup_scancode-find_key :
    (key : NamedKey)
    → (s : ScanCode) × (lookup_scancode key ≡ some s)
      × (s.code < 128)
      × (find_key s all_keys ≡ some (canonical key))
unfolding lookup_scancode find_key canonical
lookup_scancode-find_key NamedKey.a = (new 0x1e, refl, omega arith, refl)
lookup_scancode-find_key NamedKey.b = (new 0x30, refl, omega arith, refl)
lookup_scancode-find_key NamedKey.c = (new 0x2e, refl, omega arith, refl)
lookup_scancode-find_key NamedKey.d = (new 0x20, refl, omega arith, refl)
lookup_scancode-find_key NamedKey.e = (new 0x12, refl, omega arith, refl)
lookup_scancode-find_key NamedKey.f = (new 0x21, refl, omega arith, refl)
lookup_scancode-find_key NamedKey.g = (new 0x22, refl, omega arith, refl)
lookup_scancode-find_key NamedKey.h = (new 0x23, refl, omega arith, refl)
lookup_scancode-find_key NamedKey.i = (new 0x17, refl, omega arith, refl)
lookup_scancode-find_key NamedKey.j = (new 0x24, refl, omega arith, refl)
lookup_scancode-find_key NamedKey.k = (new 0x25, refl, omega arith, refl)
lookup_scancode-find_key NamedKey.l = (new 0x26, refl, omega arith, refl)
lookup_scancode-find_key NamedKey.m = (new 0x32, refl, omega arith, refl)
lookup_scancode-find_key NamedKey.n = (new 0x31, refl, omega arith, refl)
lookup_scancode-find_key NamedKey.o = (new 0x18, refl, omega arith, refl)
lookup_scancode-find_key NamedKey.p = (new 0x19, refl, omega arith, refl)
lookup_scancode-find_key NamedKey.q = (new 0x10, refl, omega arith, refl)
lookup_scancode-find_key NamedKey.r = (new 0x13, refl, omega arith, refl)
lookup_scancode-find_key NamedKey.s = (new 0x1f, refl, omega arith, refl)
lookup_scancode-find_key NamedKey.t = (new 0x14, refl, omega arith, refl)
lookup_scancode-find_key NamedKey.u = (new 0x16, refl, omega arith, refl)
lookup_scancode-find_key NamedKey.v = (new 0x2f, refl, omega arith, refl)
lookup_scancode-find_key NamedKey.w = (new 0x11, refl, omega arith, refl)
lookup_scancode-find_key NamedKey.x = (new 0x2d, refl, omega arith, refl)
lookup_scancode-find_key NamedKey.y = (new 0x15, refl, omega arith, refl)
lookup_scancode-find_key NamedKey.z = (new 0x2c, refl, omega arith, refl)
lookup_scancode-find_key NamedKey.digit0 = (new 0x0b, refl, omega arith, refl)
lookup_scancode-find_key NamedKey.digit1 = (new 0x02, refl, omega arith, refl)
lookup_scancode-find_key NamedKey.digit2 = (new 0x03, refl, omega arith, refl)
lookup_scancode-find_key NamedKey.digit3 = (new 0x04, refl, omega arith, refl)
lookup_scancode-find_key NamedKey.digit4 = (new 0x05, refl, omega arith, refl)
lookup_scancode-find_key NamedKey.digit5 = (new 0x06, refl, omega arith, refl)
lookup_scancode-find_key NamedKey.digit6 = (new 0x07, refl, omega arith, refl)
lookup_scancode-find_key NamedKey.digit7 = (new 0x08, refl, omega arith, refl)
lookup_scancode-find_key NamedKey.digit8 = (new 0x09, refl, omega arith, refl)
lookup_scancode-find_key NamedKey.digit9 = (new 0x0a, refl, omega arith, refl)
lookup_scancode-find_key NamedKey.f1 = (new 0x3b, refl, omega arith, refl)
lookup_scancode-find_key NamedKey.f2 = (new 0x3c, refl, omega arith, refl)
lookup_scancode-find_key NamedKey.f3 = (new 0x3d, refl, omega arith, refl)
lookup_scancode-find_key NamedKey.f4 = (new 0x3e, refl, omega arith, refl)
lookup_scancode-find_key NamedKey.f5 = (new 0x3f, refl, omega arith, refl)
lookup_scancode-find_key NamedKey.f6 = (new 0x40, refl, omega arith, refl)
lookup_scancode-find_key NamedKey.f7 = (new 0x41, refl, omega arith, refl)
lookup_scancode-find_key NamedKey.f8 = (new 0x42, refl, omega arith, refl)
lookup_scancode-find_key NamedKey.f9 = (new 0x43, refl, omega arith, refl)
lookup_scancode-find_key NamedKey.f10 = (new 0x44, refl, omega arith, refl)
lookup_scancode-find_key NamedKey.f11 = (new 0x57, refl, omega arith, refl)
lookup_scancode-find_key NamedKey.f12 = (new 0x58, refl, omega arith, refl)
lookup_scancode-find_key NamedKey.control_left = (new 0x1d, refl, omega arith, refl)
lookup_scancode-find_key NamedKey.control_right = (extended 0x1d, refl, omega arith, refl)
lookup_scancode-find_key NamedKey.shift_left = (new 0x2a, refl, omega arith, refl)
lookup_scancode-find_key NamedKey.shift_right = (new 0x36, refl, omega arith, refl)
lookup_scancode-find_key NamedKey.alt_left = (new 0x38, refl, omega arith, refl)
lookup_scancode-find_key NamedKey.alt_right = (extended 0x38, refl, omega arith, refl)
lookup_scancode-find_key NamedKey.meta_left = (extended 0x5b, refl, omega arith, refl)
lookup_scancode-find_key NamedKey.meta_right = (extended 0x5c, refl, omega arith, refl)
lookup_scancode-find_key NamedKey.caps_lock = (new 0x3a, refl, omega arith, refl)
lookup_scancode-find_key NamedKey.num_lock = (new 0x45, refl, omega arith, refl)
lookup_scancode-find_key NamedKey.scroll_lock = (new 0x46, refl, omega arith, refl)
lookup_scancode-find_key NamedKey.escape = (new 0x01, refl, omega arith, refl)
lookup_scancode-find_key NamedKey.tab = (new 0x0f, refl, omega arith, refl)
lookup_scancode-find_key NamedKey.space = (new 0x39, refl, omega arith, refl)
lookup_scancode-find_key NamedKey.enter = (new 0x1c, refl, omega arith, refl)
lookup_scancode-find_key NamedKey.backspace = (new 0x0e, refl, omega arith, refl)
lookup_scancode-find_key NamedKey.insert = (extended 0x52, refl, omega arith, refl)
lookup_scancode-find_key NamedKey.delete = (extended 0x53, refl, omega arith, refl)
lookup_scancode-find_key NamedKey.home = (extended 0x47, refl, omega arith, refl)
lookup_scancode-find_key NamedKey.end = (extended 0x4f, refl, omega arith, refl)
lookup_scancode-find_key NamedKey.page_up = (extended 0x49, refl, omega arith, refl)
lookup_scancode-find_key NamedKey.page_down = (extended 0x51, refl, omega arith, refl)
lookup_scancode-find_key NamedKey.arrow_up = (extended 0x48, refl, omega arith, refl)
lookup_scancode-find_key NamedKey.arrow_down = (extended 0x50, refl, omega arith, refl)
lookup_scancode-find_key NamedKey.arrow_left = (extended 0x4b, refl, omega arith, refl)
lookup_scancode-find_key NamedKey.arrow_right = (extended 0x4d, refl, omega arith, refl)
lookup_scancode-find_key NamedKey.minus = (new 0x0c, refl, omega arith, refl)
lookup_scancode-find_key NamedKey.equal = (new 0x0d, refl, omega arith, refl)
lookup_scancode-find_key NamedKey.bracket_left = (new 0x1a, refl, omega arith, refl)
lookup_scancode-find_key NamedKey.bracket_right = (new 0x1b, refl, omega arith, refl)
lookup_scancode-find_key NamedKey.backslash = (new 0x2b, refl, omega arith, refl)
lookup_scancode-find_key NamedKey.semicolon = (new 0x27, refl, omega arith, refl)
lookup_scancode-find_key NamedKey.quote = (new 0x28, refl, omega arith, refl)
lookup_scancode-find_key NamedKey.backquote = (new 0x29, refl, omega arith, refl)
lookup_scancode-find_key NamedKey.comma = (new 0x33, refl, omega arith, refl)
lookup_scancode-find_key NamedKey.period = (new 0x34, refl, omega arith, refl)
lookup_scancode-find_key NamedKey.slash = (new 0x35, refl, omega arith, refl)
lookup_scancode-find_key NamedKey.numpad0 = (new 0x52, refl, omega arith, refl)
lookup_scancode-find_key NamedKey.numpad1 = (new 0x4f, refl, omega arith, refl)
lookup_scancode-find_key NamedKey.numpad2 = (new 0x50, refl, omega arith, refl)
lookup_scancode-find_key NamedKey.numpad3 = (new 0x51, refl, omega arith, refl)
lookup_scancode-find_key NamedKey.numpad4 = (new 0x4b, refl, omega arith, refl)
lookup_scancode-find_key NamedKey.numpad5 = (new 0x4c, refl, omega arith, refl)
lookup_scancode-find_key NamedKey.numpad6 = (new 0x4d, refl, omega arith, refl)
lookup_scancode-find_key NamedKey.numpad7 = (new 0x47, refl, omega arith, refl)
lookup_scancode-find_key NamedKey.numpad8 = (new 0x48, refl, omega arith, refl)
lookup_scancode-find_key NamedKey.numpad9 = (new 0x49, refl, omega arith, refl)
lookup_scancode-find_key NamedKey.numpad_multiply = (new 0x37, refl, omega arith, refl)
lookup_scancode-find_key NamedKey.numpad_add = (new 0x4e, refl, omega arith, refl)
lookup_scancode-find_key NamedKey.numpad_subtract = (new 0x4a, refl, omega arith, refl)
lookup_scancode-find_key NamedKey.numpad_decimal = (new 0x53, refl, omega arith, refl)
lookup_scancode-find_key NamedKey.numpad_divide = (extended 0x35, refl, omega arith, refl)
lookup_scancode-find_key NamedKey.numpad_enter = (extended 0x1c, refl, omega arith, refl)
lookup_scancode-find_key NamedKey.print_screen = (extended 0x37, refl, omega arith, refl)
lookup_scancode-find_key NamedKey.pause = (new 0x45, refl, omega arith, refl)
lookup_scancode-find_key NamedKey.context_menu = (extended 0x5d, refl, omega arith, refl)
