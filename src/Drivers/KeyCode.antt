-- ===== src/Drivers/KeyCode.antt =====
-- drivers/keyboard.c: the keys, and their scancodes.
use levos.Prelude.{ℕ, List, [], ◌∷◌}

-- `enum KEYCODE`
pub data KeyCode : Type 0 where
  key_space key_0 key_1 key_2 key_3 key_4 : KeyCode
  key_5 key_6 key_7 key_8 key_9 key_a : KeyCode
  key_b key_c key_d key_e key_f key_g : KeyCode
  key_h key_i key_j key_k key_l key_m : KeyCode
  key_n key_o key_p key_q key_r key_s : KeyCode
  key_t key_u key_v key_w key_x key_y : KeyCode
  key_z key_return key_escape key_backspace key_up key_down : KeyCode
  key_left key_right key_f1 key_f2 key_f3 key_f4 : KeyCode
  key_f5 key_f6 key_f7 key_f8 key_f9 key_f10 : KeyCode
  key_f11 key_f12 key_f13 key_f14 key_f15 key_dot : KeyCode
  key_comma key_colon key_semicolon key_slash key_backslash key_plus : KeyCode
  key_minus key_asterisk key_exclamation key_question key_quotedouble key_quote : KeyCode
  key_equal key_hash key_percent key_ampersand key_underscore key_leftparenthesis : KeyCode
  key_rightparenthesis key_leftbracket key_rightbracket key_leftcurl key_rightcurl key_dollar :
      KeyCode
  key_pound key_euro key_less key_greater key_bar key_grave : KeyCode
  key_tilde key_at key_carret key_kp_0 key_kp_1 key_kp_2 : KeyCode
  key_kp_3 key_kp_4 key_kp_5 key_kp_6 key_kp_7 key_kp_8 : KeyCode
  key_kp_9 key_kp_plus key_kp_minus key_kp_decimal key_kp_divide key_kp_asterisk : KeyCode
  key_kp_numlock key_kp_enter key_tab key_capslock key_lshift key_lctrl : KeyCode
  key_lalt key_lwin key_rshift key_rctrl key_ralt key_rwin : KeyCode
  key_insert key_delete key_home key_end key_pageup key_pagedown : KeyCode
  key_scrolllock key_pause key_unknown key_numkeycodes : KeyCode

-- The values of the keys, some of which share one.
abbrev pub value : KeyCode → ℕ
value key_space = b' '
value key_0 = b'0'
value key_1 = b'1'
value key_2 = b'2'
value key_3 = b'3'
value key_4 = b'4'
value key_5 = b'5'
value key_6 = b'6'
value key_7 = b'7'
value key_8 = b'8'
value key_9 = b'9'
value key_a = b'a'
value key_b = b'b'
value key_c = b'c'
value key_d = b'd'
value key_e = b'e'
value key_f = b'f'
value key_g = b'g'
value key_h = b'h'
value key_i = b'i'
value key_j = b'j'
value key_k = b'k'
value key_l = b'l'
value key_m = b'm'
value key_n = b'n'
value key_o = b'o'
value key_p = b'p'
value key_q = b'q'
value key_r = b'r'
value key_s = b's'
value key_t = b't'
value key_u = b'u'
value key_v = b'v'
value key_w = b'w'
value key_x = b'x'
value key_y = b'y'
value key_z = b'z'
value key_return = 10
value key_escape = 0x1001
value key_backspace = 8
value key_up = 0x1100
value key_down = 0x1101
value key_left = 0x1102
value key_right = 0x1103
value key_f1 = 0x1201
value key_f2 = 0x1202
value key_f3 = 0x1203
value key_f4 = 0x1204
value key_f5 = 0x1205
value key_f6 = 0x1206
value key_f7 = 0x1207
value key_f8 = 0x1208
value key_f9 = 0x1209
value key_f10 = 0x120a
value key_f11 = 0x120b
value key_f12 = 0x120b
value key_f13 = 0x120c
value key_f14 = 0x120d
value key_f15 = 0x120e
value key_dot = b'.'
value key_comma = b','
value key_colon = b':'
value key_semicolon = b';'
value key_slash = b'/'
value key_backslash = 92
value key_plus = b'+'
value key_minus = b'-'
value key_asterisk = b'*'
value key_exclamation = b'!'
value key_question = b'?'
value key_quotedouble = 34
value key_quote = 39
value key_equal = b'='
value key_hash = b'#'
value key_percent = b'%'
value key_ampersand = b'&'
value key_underscore = b'_'
value key_leftparenthesis = b'('
value key_rightparenthesis = b')'
value key_leftbracket = b'['
value key_rightbracket = b']'
value key_leftcurl = b'{'
value key_rightcurl = b'}'
value key_dollar = b'$'
value key_pound = b'$'
value key_euro = b'$'
value key_less = b'<'
value key_greater = b'>'
value key_bar = b'|'
value key_grave = b'`'
value key_tilde = b'~'
value key_at = b'@'
value key_carret = b'^'
value key_kp_0 = b'0'
value key_kp_1 = b'1'
value key_kp_2 = b'2'
value key_kp_3 = b'3'
value key_kp_4 = b'4'
value key_kp_5 = b'5'
value key_kp_6 = b'6'
value key_kp_7 = b'7'
value key_kp_8 = b'8'
value key_kp_9 = b'9'
value key_kp_plus = b'+'
value key_kp_minus = b'-'
value key_kp_decimal = b'.'
value key_kp_divide = b'/'
value key_kp_asterisk = b'*'
value key_kp_numlock = 0x300f
value key_kp_enter = 0x3010
value key_tab = 0x4000
value key_capslock = 0x4001
value key_lshift = 0x4002
value key_lctrl = 0x4003
value key_lalt = 0x4004
value key_lwin = 0x4005
value key_rshift = 0x4006
value key_rctrl = 0x4007
value key_ralt = 0x4008
value key_rwin = 0x4009
value key_insert = 0x400a
value key_delete = 0x400b
value key_home = 0x400c
value key_end = 0x400d
value key_pageup = 0x400e
value key_pagedown = 0x400f
value key_scrolllock = 0x4010
value key_pause = 0x4011
value key_unknown = 0x4012
value key_numkeycodes = 0x4013

-- `value` of each key.
abbrev pub values : List KeyCode → List ℕ
values [] = []
values (key ∷ keys) = value key ∷ values keys

-- The keys by their scancode.
abbrev pub scancode_std : List ℕ
scancode_std = values (
    key_unknown ∷ key_escape ∷ key_1 ∷ key_2 ∷ key_3 ∷ key_4 ∷ key_5 ∷ key_6 ∷ key_7 ∷ key_8 ∷ key_9
    ∷ key_0 ∷ key_minus ∷ key_equal ∷ key_backspace ∷ key_tab ∷ key_q ∷ key_w ∷ key_e ∷ key_r
    ∷ key_t ∷ key_y ∷ key_u ∷ key_i ∷ key_o ∷ key_p ∷ key_leftbracket ∷ key_rightbracket
    ∷ key_return ∷ key_lctrl ∷ key_a ∷ key_s ∷ key_d ∷ key_f ∷ key_g ∷ key_h ∷ key_j ∷ key_k ∷ key_l
    ∷ key_semicolon ∷ key_quote ∷ key_grave ∷ key_lshift ∷ key_backslash ∷ key_z ∷ key_x ∷ key_c
    ∷ key_v ∷ key_b ∷ key_n ∷ key_m ∷ key_comma ∷ key_dot ∷ key_slash ∷ key_rshift ∷ key_kp_asterisk
    ∷ key_ralt ∷ key_space ∷ key_capslock ∷ key_f1 ∷ key_f2 ∷ key_f3 ∷ key_f4 ∷ key_f5 ∷ key_f6
    ∷ key_f7 ∷ key_f8 ∷ key_f9 ∷ key_f10 ∷ key_kp_numlock ∷ key_scrolllock ∷ key_home ∷ key_kp_8
    ∷ key_pageup ∷ key_kp_2 ∷ key_kp_3 ∷ key_kp_0 ∷ key_kp_decimal ∷ key_unknown ∷ key_unknown
    ∷ key_unknown ∷ key_f11 ∷ key_f12 ∷ [])
