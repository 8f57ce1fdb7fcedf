-- ===== src/Protocol/Scancode.antt =====
-- The key names and the scan-set-1 table of packages/protocol/src/scancode.rs.
pub mod Codes
use remotelink.Prelude.{ℕ, Bool, true, false, Option, some}

pub record ScanCode : Type 0 where
  pub code : ℕ
  pub extended : Bool

abbrev pub new : ℕ → ScanCode
new code = record { code = code; extended = false }

abbrev pub extended : ℕ → ScanCode
extended code = record { code = code; extended = true }

pub data NamedKey : Type 0 where
  a b c d e f g h i j k l m n o p q r s t u v w x y z digit0 digit1 digit2 digit3 digit4 : NamedKey
  digit5 digit6 digit7 digit8 digit9 f1 f2 f3 f4 f5 f6 f7 f8 f9 f10 f11 f12 control_left : NamedKey
  control_right shift_left shift_right alt_left alt_right meta_left meta_right caps_lock : NamedKey
  num_lock scroll_lock escape tab space enter backspace insert delete home end page_up : NamedKey
  page_down arrow_up arrow_down arrow_left arrow_right minus equal bracket_left : NamedKey
  bracket_right backslash semicolon quote backquote comma period slash numpad0 numpad1 : NamedKey
  numpad2 numpad3 numpad4 numpad5 numpad6 numpad7 numpad8 numpad9 numpad_multiply numpad_add :
      NamedKey
  numpad_subtract numpad_decimal numpad_divide numpad_enter print_screen pause context_menu :
      NamedKey

unfoldable pub lookup_scancode : NamedKey → Option ScanCode
lookup_scancode NamedKey.a = some (new 0x1e)
lookup_scancode NamedKey.b = some (new 0x30)
lookup_scancode NamedKey.c = some (new 0x2e)
lookup_scancode NamedKey.d = some (new 0x20)
lookup_scancode NamedKey.e = some (new 0x12)
lookup_scancode NamedKey.f = some (new 0x21)
lookup_scancode NamedKey.g = some (new 0x22)
lookup_scancode NamedKey.h = some (new 0x23)
lookup_scancode NamedKey.i = some (new 0x17)
lookup_scancode NamedKey.j = some (new 0x24)
lookup_scancode NamedKey.k = some (new 0x25)
lookup_scancode NamedKey.l = some (new 0x26)
lookup_scancode NamedKey.m = some (new 0x32)
lookup_scancode NamedKey.n = some (new 0x31)
lookup_scancode NamedKey.o = some (new 0x18)
lookup_scancode NamedKey.p = some (new 0x19)
lookup_scancode NamedKey.q = some (new 0x10)
lookup_scancode NamedKey.r = some (new 0x13)
lookup_scancode NamedKey.s = some (new 0x1f)
lookup_scancode NamedKey.t = some (new 0x14)
lookup_scancode NamedKey.u = some (new 0x16)
lookup_scancode NamedKey.v = some (new 0x2f)
lookup_scancode NamedKey.w = some (new 0x11)
lookup_scancode NamedKey.x = some (new 0x2d)
lookup_scancode NamedKey.y = some (new 0x15)
lookup_scancode NamedKey.z = some (new 0x2c)
lookup_scancode NamedKey.digit0 = some (new 0x0b)
lookup_scancode NamedKey.digit1 = some (new 0x02)
lookup_scancode NamedKey.digit2 = some (new 0x03)
lookup_scancode NamedKey.digit3 = some (new 0x04)
lookup_scancode NamedKey.digit4 = some (new 0x05)
lookup_scancode NamedKey.digit5 = some (new 0x06)
lookup_scancode NamedKey.digit6 = some (new 0x07)
lookup_scancode NamedKey.digit7 = some (new 0x08)
lookup_scancode NamedKey.digit8 = some (new 0x09)
lookup_scancode NamedKey.digit9 = some (new 0x0a)
lookup_scancode NamedKey.f1 = some (new 0x3b)
lookup_scancode NamedKey.f2 = some (new 0x3c)
lookup_scancode NamedKey.f3 = some (new 0x3d)
lookup_scancode NamedKey.f4 = some (new 0x3e)
lookup_scancode NamedKey.f5 = some (new 0x3f)
lookup_scancode NamedKey.f6 = some (new 0x40)
lookup_scancode NamedKey.f7 = some (new 0x41)
lookup_scancode NamedKey.f8 = some (new 0x42)
lookup_scancode NamedKey.f9 = some (new 0x43)
lookup_scancode NamedKey.f10 = some (new 0x44)
lookup_scancode NamedKey.f11 = some (new 0x57)
lookup_scancode NamedKey.f12 = some (new 0x58)
lookup_scancode NamedKey.control_left = some (new 0x1d)
lookup_scancode NamedKey.control_right = some (extended 0x1d)
lookup_scancode NamedKey.shift_left = some (new 0x2a)
lookup_scancode NamedKey.shift_right = some (new 0x36)
lookup_scancode NamedKey.alt_left = some (new 0x38)
lookup_scancode NamedKey.alt_right = some (extended 0x38)
lookup_scancode NamedKey.meta_left = some (extended 0x5b)
lookup_scancode NamedKey.meta_right = some (extended 0x5c)
lookup_scancode NamedKey.caps_lock = some (new 0x3a)
lookup_scancode NamedKey.num_lock = some (new 0x45)
lookup_scancode NamedKey.scroll_lock = some (new 0x46)
lookup_scancode NamedKey.escape = some (new 0x01)
lookup_scancode NamedKey.tab = some (new 0x0f)
lookup_scancode NamedKey.space = some (new 0x39)
lookup_scancode NamedKey.enter = some (new 0x1c)
lookup_scancode NamedKey.backspace = some (new 0x0e)
lookup_scancode NamedKey.insert = some (extended 0x52)
lookup_scancode NamedKey.delete = some (extended 0x53)
lookup_scancode NamedKey.home = some (extended 0x47)
lookup_scancode NamedKey.end = some (extended 0x4f)
lookup_scancode NamedKey.page_up = some (extended 0x49)
lookup_scancode NamedKey.page_down = some (extended 0x51)
lookup_scancode NamedKey.arrow_up = some (extended 0x48)
lookup_scancode NamedKey.arrow_down = some (extended 0x50)
lookup_scancode NamedKey.arrow_left = some (extended 0x4b)
lookup_scancode NamedKey.arrow_right = some (extended 0x4d)
lookup_scancode NamedKey.minus = some (new 0x0c)
lookup_scancode NamedKey.equal = some (new 0x0d)
lookup_scancode NamedKey.bracket_left = some (new 0x1a)
lookup_scancode NamedKey.bracket_right = some (new 0x1b)
lookup_scancode NamedKey.backslash = some (new 0x2b)
lookup_scancode NamedKey.semicolon = some (new 0x27)
lookup_scancode NamedKey.quote = some (new 0x28)
lookup_scancode NamedKey.backquote = some (new 0x29)
lookup_scancode NamedKey.comma = some (new 0x33)
lookup_scancode NamedKey.period = some (new 0x34)
lookup_scancode NamedKey.slash = some (new 0x35)
lookup_scancode NamedKey.numpad0 = some (new 0x52)
lookup_scancode NamedKey.numpad1 = some (new 0x4f)
lookup_scancode NamedKey.numpad2 = some (new 0x50)
lookup_scancode NamedKey.numpad3 = some (new 0x51)
lookup_scancode NamedKey.numpad4 = some (new 0x4b)
lookup_scancode NamedKey.numpad5 = some (new 0x4c)
lookup_scancode NamedKey.numpad6 = some (new 0x4d)
lookup_scancode NamedKey.numpad7 = some (new 0x47)
lookup_scancode NamedKey.numpad8 = some (new 0x48)
lookup_scancode NamedKey.numpad9 = some (new 0x49)
lookup_scancode NamedKey.numpad_multiply = some (new 0x37)
lookup_scancode NamedKey.numpad_add = some (new 0x4e)
lookup_scancode NamedKey.numpad_subtract = some (new 0x4a)
lookup_scancode NamedKey.numpad_decimal = some (new 0x53)
lookup_scancode NamedKey.numpad_divide = some (extended 0x35)
lookup_scancode NamedKey.numpad_enter = some (extended 0x1c)
lookup_scancode NamedKey.print_screen = some (extended 0x37)
lookup_scancode NamedKey.pause = some (new 0x45)
lookup_scancode NamedKey.context_menu = some (extended 0x5d)
