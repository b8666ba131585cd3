-- ===== src/Ramdisk/DemoData.antt =====
-- The bytes of the demo files in src/lib/ramdisk.c.
use heat_os.Prelude.{ℕ, List, [], ◌∷◌}

-- `hjar`
abbrev pub hjar_bytes : List ℕ
hjar_bytes =
    b'H' ∷ b'J' ∷ b'A' ∷ b'R' ∷ 1 ∷ 0xFC ∷ 25 ∷ b'H' ∷ b'e' ∷ b'a' ∷ b't' ∷ b'O' ∷ b'S' ∷ b' '
    ∷ b'J' ∷ b'A' ∷ b'R' ∷ b' ' ∷ b'd' ∷ b'e' ∷ b'm' ∷ b'o' ∷ b' ' ∷ b's' ∷ b't' ∷ b'a' ∷ b'r'
    ∷ b't' ∷ b'e' ∷ b'd' ∷ b'\n' ∷ 0xFC ∷ 18 ∷ b'R' ∷ b'u' ∷ b'n' ∷ b'n' ∷ b'i' ∷ b'n' ∷ b'g' ∷ b' '
    ∷ b'f' ∷ b'r' ∷ b'o' ∷ b'm' ∷ b' ' ∷ b'/' ∷ b'j' ∷ b'a' ∷ b'v' ∷ b'a' ∷ 0xFC ∷ 1 ∷ b'\n' ∷ 0x10
    ∷ 7 ∷ 0x10 ∷ 5 ∷ 0x60 ∷ 0xFC ∷ 8 ∷ b'7' ∷ b' ' ∷ b'+' ∷ b' ' ∷ b'5' ∷ b' ' ∷ b'=' ∷ b' ' ∷ 0xFE
    ∷ 0xB1 ∷ []

-- `zipjar`
abbrev pub zipjar_bytes : List ℕ
zipjar_bytes =
    0x50 ∷ 0x4B ∷ 0x03 ∷ 0x04 ∷ 0x14 ∷ 0x00 ∷ 0x00 ∷ 0x00 ∷ 0x00 ∷ 0x00 ∷ 0x00 ∷ 0x00 ∷ 0x00 ∷ 0x00
    ∷ 0x00 ∷ 0x00 ∷ 0x00 ∷ 0x00 ∷ 0x0F ∷ 0x00 ∷ 0x00 ∷ 0x00 ∷ 0x0F ∷ 0x00 ∷ 0x00 ∷ 0x00 ∷ 0x09
    ∷ 0x00 ∷ 0x00 ∷ 0x00 ∷ b'h' ∷ b'e' ∷ b'l' ∷ b'l' ∷ b'o' ∷ b'.' ∷ b't' ∷ b'x' ∷ b't' ∷ b'h'
    ∷ b'e' ∷ b'l' ∷ b'l' ∷ b'o' ∷ b' ' ∷ b'f' ∷ b'r' ∷ b'o' ∷ b'm' ∷ b' ' ∷ b'j' ∷ b'a' ∷ b'r'
    ∷ b'\n' ∷ 0x50 ∷ 0x4B ∷ 0x01 ∷ 0x02 ∷ 0x14 ∷ 0x00 ∷ 0x14 ∷ 0x00 ∷ 0x00 ∷ 0x00 ∷ 0x00 ∷ 0x00
    ∷ 0x00 ∷ 0x00 ∷ 0x00 ∷ 0x00 ∷ 0x00 ∷ 0x00 ∷ 0x00 ∷ 0x00 ∷ 0x0F ∷ 0x00 ∷ 0x00 ∷ 0x00 ∷ 0x0F
    ∷ 0x00 ∷ 0x00 ∷ 0x00 ∷ 0x09 ∷ 0x00 ∷ 0x00 ∷ 0x00 ∷ 0x00 ∷ 0x00 ∷ 0x00 ∷ 0x00 ∷ 0x00 ∷ 0x00
    ∷ 0x00 ∷ 0x00 ∷ 0x00 ∷ 0x00 ∷ 0x00 ∷ 0x00 ∷ 0x00 ∷ 0x00 ∷ b'h' ∷ b'e' ∷ b'l' ∷ b'l' ∷ b'o'
    ∷ b'.' ∷ b't' ∷ b'x' ∷ b't' ∷ 0x50 ∷ 0x4B ∷ 0x05 ∷ 0x06 ∷ 0x00 ∷ 0x00 ∷ 0x00 ∷ 0x00 ∷ 0x01
    ∷ 0x00 ∷ 0x01 ∷ 0x00 ∷ 0x37 ∷ 0x00 ∷ 0x00 ∷ 0x00 ∷ 0x36 ∷ 0x00 ∷ 0x00 ∷ 0x00 ∷ 0x00 ∷ 0x00 ∷ []

-- `tinyjvm_hello_class`
abbrev pub class_bytes : List ℕ
class_bytes =
    0xCA ∷ 0xFE ∷ 0xBA ∷ 0xBE ∷ 0x00 ∷ 0x00 ∷ 0x00 ∷ 0x34 ∷ 0x00 ∷ 0x1D ∷ 0x01 ∷ 0x00 ∷ 0x05 ∷ 0x48
    ∷ 0x65 ∷ 0x6C ∷ 0x6C ∷ 0x6F ∷ 0x07 ∷ 0x00 ∷ 0x01 ∷ 0x01 ∷ 0x00 ∷ 0x10 ∷ 0x6A ∷ 0x61 ∷ 0x76
    ∷ 0x61 ∷ 0x2F ∷ 0x6C ∷ 0x61 ∷ 0x6E ∷ 0x67 ∷ 0x2F ∷ 0x4F ∷ 0x62 ∷ 0x6A ∷ 0x65 ∷ 0x63 ∷ 0x74
    ∷ 0x07 ∷ 0x00 ∷ 0x03 ∷ 0x01 ∷ 0x00 ∷ 0x06 ∷ 0x3C ∷ 0x69 ∷ 0x6E ∷ 0x69 ∷ 0x74 ∷ 0x3E ∷ 0x01
    ∷ 0x00 ∷ 0x03 ∷ 0x28 ∷ 0x29 ∷ 0x56 ∷ 0x0C ∷ 0x00 ∷ 0x05 ∷ 0x00 ∷ 0x06 ∷ 0x0A ∷ 0x00 ∷ 0x04
    ∷ 0x00 ∷ 0x07 ∷ 0x01 ∷ 0x00 ∷ 0x10 ∷ 0x6A ∷ 0x61 ∷ 0x76 ∷ 0x61 ∷ 0x2F ∷ 0x6C ∷ 0x61 ∷ 0x6E
    ∷ 0x67 ∷ 0x2F ∷ 0x53 ∷ 0x79 ∷ 0x73 ∷ 0x74 ∷ 0x65 ∷ 0x6D ∷ 0x07 ∷ 0x00 ∷ 0x09 ∷ 0x01 ∷ 0x00
    ∷ 0x03 ∷ 0x6F ∷ 0x75 ∷ 0x74 ∷ 0x01 ∷ 0x00 ∷ 0x15 ∷ 0x4C ∷ 0x6A ∷ 0x61 ∷ 0x76 ∷ 0x61 ∷ 0x2F
    ∷ 0x69 ∷ 0x6F ∷ 0x2F ∷ 0x50 ∷ 0x72 ∷ 0x69 ∷ 0x6E ∷ 0x74 ∷ 0x53 ∷ 0x74 ∷ 0x72 ∷ 0x65 ∷ 0x61
    ∷ 0x6D ∷ 0x3B ∷ 0x0C ∷ 0x00 ∷ 0x0B ∷ 0x00 ∷ 0x0C ∷ 0x09 ∷ 0x00 ∷ 0x0A ∷ 0x00 ∷ 0x0D ∷ 0x01
    ∷ 0x00 ∷ 0x13 ∷ 0x6A ∷ 0x61 ∷ 0x76 ∷ 0x61 ∷ 0x2F ∷ 0x69 ∷ 0x6F ∷ 0x2F ∷ 0x50 ∷ 0x72 ∷ 0x69
    ∷ 0x6E ∷ 0x74 ∷ 0x53 ∷ 0x74 ∷ 0x72 ∷ 0x65 ∷ 0x61 ∷ 0x6D ∷ 0x07 ∷ 0x00 ∷ 0x0F ∷ 0x01 ∷ 0x00
    ∷ 0x07 ∷ 0x70 ∷ 0x72 ∷ 0x69 ∷ 0x6E ∷ 0x74 ∷ 0x6C ∷ 0x6E ∷ 0x01 ∷ 0x00 ∷ 0x15 ∷ 0x28 ∷ 0x4C
    ∷ 0x6A ∷ 0x61 ∷ 0x76 ∷ 0x61 ∷ 0x2F ∷ 0x6C ∷ 0x61 ∷ 0x6E ∷ 0x67 ∷ 0x2F ∷ 0x53 ∷ 0x74 ∷ 0x72
    ∷ 0x69 ∷ 0x6E ∷ 0x67 ∷ 0x3B ∷ 0x29 ∷ 0x56 ∷ 0x0C ∷ 0x00 ∷ 0x11 ∷ 0x00 ∷ 0x12 ∷ 0x0A ∷ 0x00
    ∷ 0x10 ∷ 0x00 ∷ 0x13 ∷ 0x01 ∷ 0x00 ∷ 0x12 ∷ 0x48 ∷ 0x65 ∷ 0x6C ∷ 0x6C ∷ 0x6F ∷ 0x20 ∷ 0x66
    ∷ 0x72 ∷ 0x6F ∷ 0x6D ∷ 0x20 ∷ 0x54 ∷ 0x69 ∷ 0x6E ∷ 0x79 ∷ 0x4A ∷ 0x56 ∷ 0x4D ∷ 0x08 ∷ 0x00
    ∷ 0x15 ∷ 0x01 ∷ 0x00 ∷ 0x04 ∷ 0x28 ∷ 0x49 ∷ 0x29 ∷ 0x56 ∷ 0x0C ∷ 0x00 ∷ 0x11 ∷ 0x00 ∷ 0x17
    ∷ 0x0A ∷ 0x00 ∷ 0x10 ∷ 0x00 ∷ 0x18 ∷ 0x01 ∷ 0x00 ∷ 0x04 ∷ 0x43 ∷ 0x6F ∷ 0x64 ∷ 0x65 ∷ 0x01
    ∷ 0x00 ∷ 0x04 ∷ 0x6D ∷ 0x61 ∷ 0x69 ∷ 0x6E ∷ 0x01 ∷ 0x00 ∷ 0x16 ∷ 0x28 ∷ 0x5B ∷ 0x4C ∷ 0x6A
    ∷ 0x61 ∷ 0x76 ∷ 0x61 ∷ 0x2F ∷ 0x6C ∷ 0x61 ∷ 0x6E ∷ 0x67 ∷ 0x2F ∷ 0x53 ∷ 0x74 ∷ 0x72 ∷ 0x69
    ∷ 0x6E ∷ 0x67 ∷ 0x3B ∷ 0x29 ∷ 0x56 ∷ 0x00 ∷ 0x21 ∷ 0x00 ∷ 0x02 ∷ 0x00 ∷ 0x04 ∷ 0x00 ∷ 0x00
    ∷ 0x00 ∷ 0x00 ∷ 0x00 ∷ 0x01 ∷ 0x00 ∷ 0x09 ∷ 0x00 ∷ 0x1B ∷ 0x00 ∷ 0x1C ∷ 0x00 ∷ 0x01 ∷ 0x00
    ∷ 0x1A ∷ 0x00 ∷ 0x00 ∷ 0x00 ∷ 0x1D ∷ 0x00 ∷ 0x02 ∷ 0x00 ∷ 0x01 ∷ 0x00 ∷ 0x00 ∷ 0x00 ∷ 0x11
    ∷ 0xB2 ∷ 0x00 ∷ 0x0E ∷ 0x12 ∷ 0x16 ∷ 0xB6 ∷ 0x00 ∷ 0x14 ∷ 0xB2 ∷ 0x00 ∷ 0x0E ∷ 0x10 ∷ 0x0C
    ∷ 0xB6 ∷ 0x00 ∷ 0x19 ∷ 0xB1 ∷ 0x00 ∷ 0x00 ∷ 0x00 ∷ 0x00 ∷ 0x00 ∷ 0x00 ∷ []

-- `tinyjvm_hello_jar`
abbrev pub jar_bytes : List ℕ
jar_bytes =
    0x50 ∷ 0x4B ∷ 0x03 ∷ 0x04 ∷ 0x14 ∷ 0x00 ∷ 0x00 ∷ 0x00 ∷ 0x00 ∷ 0x00 ∷ 0x5C ∷ 0x9C ∷ 0x72 ∷ 0x5C
    ∷ 0x49 ∷ 0x59 ∷ 0x85 ∷ 0x8E ∷ 0x2C ∷ 0x00 ∷ 0x00 ∷ 0x00 ∷ 0x2C ∷ 0x00 ∷ 0x00 ∷ 0x00 ∷ 0x14
    ∷ 0x00 ∷ 0x00 ∷ 0x00 ∷ 0x4D ∷ 0x45 ∷ 0x54 ∷ 0x41 ∷ 0x2D ∷ 0x49 ∷ 0x4E ∷ 0x46 ∷ 0x2F ∷ 0x4D
    ∷ 0x41 ∷ 0x4E ∷ 0x49 ∷ 0x46 ∷ 0x45 ∷ 0x53 ∷ 0x54 ∷ 0x2E ∷ 0x4D ∷ 0x46 ∷ 0x4D ∷ 0x61 ∷ 0x6E
    ∷ 0x69 ∷ 0x66 ∷ 0x65 ∷ 0x73 ∷ 0x74 ∷ 0x2D ∷ 0x56 ∷ 0x65 ∷ 0x72 ∷ 0x73 ∷ 0x69 ∷ 0x6F ∷ 0x6E
    ∷ 0x3A ∷ 0x20 ∷ 0x31 ∷ 0x2E ∷ 0x30 ∷ 0x0D ∷ 0x0A ∷ 0x4D ∷ 0x61 ∷ 0x69 ∷ 0x6E ∷ 0x2D ∷ 0x43
    ∷ 0x6C ∷ 0x61 ∷ 0x73 ∷ 0x73 ∷ 0x3A ∷ 0x20 ∷ 0x48 ∷ 0x65 ∷ 0x6C ∷ 0x6C ∷ 0x6F ∷ 0x0D ∷ 0x0A
    ∷ 0x0D ∷ 0x0A ∷ 0x50 ∷ 0x4B ∷ 0x03 ∷ 0x04 ∷ 0x14 ∷ 0x00 ∷ 0x00 ∷ 0x00 ∷ 0x00 ∷ 0x00 ∷ 0x5C
    ∷ 0x9C ∷ 0x72 ∷ 0x5C ∷ 0xCD ∷ 0x06 ∷ 0x52 ∷ 0x7A ∷ 0x50 ∷ 0x01 ∷ 0x00 ∷ 0x00 ∷ 0x50 ∷ 0x01
    ∷ 0x00 ∷ 0x00 ∷ 0x0B ∷ 0x00 ∷ 0x00 ∷ 0x00 ∷ 0x48 ∷ 0x65 ∷ 0x6C ∷ 0x6C ∷ 0x6F ∷ 0x2E ∷ 0x63
    ∷ 0x6C ∷ 0x61 ∷ 0x73 ∷ 0x73 ∷ 0xCA ∷ 0xFE ∷ 0xBA ∷ 0xBE ∷ 0x00 ∷ 0x00 ∷ 0x00 ∷ 0x34 ∷ 0x00
    ∷ 0x1D ∷ 0x01 ∷ 0x00 ∷ 0x05 ∷ 0x48 ∷ 0x65 ∷ 0x6C ∷ 0x6C ∷ 0x6F ∷ 0x07 ∷ 0x00 ∷ 0x01 ∷ 0x01
    ∷ 0x00 ∷ 0x10 ∷ 0x6A ∷ 0x61 ∷ 0x76 ∷ 0x61 ∷ 0x2F ∷ 0x6C ∷ 0x61 ∷ 0x6E ∷ 0x67 ∷ 0x2F ∷ 0x4F
    ∷ 0x62 ∷ 0x6A ∷ 0x65 ∷ 0x63 ∷ 0x74 ∷ 0x07 ∷ 0x00 ∷ 0x03 ∷ 0x01 ∷ 0x00 ∷ 0x06 ∷ 0x3C ∷ 0x69
    ∷ 0x6E ∷ 0x69 ∷ 0x74 ∷ 0x3E ∷ 0x01 ∷ 0x00 ∷ 0x03 ∷ 0x28 ∷ 0x29 ∷ 0x56 ∷ 0x0C ∷ 0x00 ∷ 0x05
    ∷ 0x00 ∷ 0x06 ∷ 0x0A ∷ 0x00 ∷ 0x04 ∷ 0x00 ∷ 0x07 ∷ 0x01 ∷ 0x00 ∷ 0x10 ∷ 0x6A ∷ 0x61 ∷ 0x76
    ∷ 0x61 ∷ 0x2F ∷ 0x6C ∷ 0x61 ∷ 0x6E ∷ 0x67 ∷ 0x2F ∷ 0x53 ∷ 0x79 ∷ 0x73 ∷ 0x74 ∷ 0x65 ∷ 0x6D
    ∷ 0x07 ∷ 0x00 ∷ 0x09 ∷ 0x01 ∷ 0x00 ∷ 0x03 ∷ 0x6F ∷ 0x75 ∷ 0x74 ∷ 0x01 ∷ 0x00 ∷ 0x15 ∷ 0x4C
    ∷ 0x6A ∷ 0x61 ∷ 0x76 ∷ 0x61 ∷ 0x2F ∷ 0x69 ∷ 0x6F ∷ 0x2F ∷ 0x50 ∷ 0x72 ∷ 0x69 ∷ 0x6E ∷ 0x74
    ∷ 0x53 ∷ 0x74 ∷ 0x72 ∷ 0x65 ∷ 0x61 ∷ 0x6D ∷ 0x3B ∷ 0x0C ∷ 0x00 ∷ 0x0B ∷ 0x00 ∷ 0x0C ∷ 0x09
    ∷ 0x00 ∷ 0x0A ∷ 0x00 ∷ 0x0D ∷ 0x01 ∷ 0x00 ∷ 0x13 ∷ 0x6A ∷ 0x61 ∷ 0x76 ∷ 0x61 ∷ 0x2F ∷ 0x69
    ∷ 0x6F ∷ 0x2F ∷ 0x50 ∷ 0x72 ∷ 0x69 ∷ 0x6E ∷ 0x74 ∷ 0x53 ∷ 0x74 ∷ 0x72 ∷ 0x65 ∷ 0x61 ∷ 0x6D
    ∷ 0x07 ∷ 0x00 ∷ 0x0F ∷ 0x01 ∷ 0x00 ∷ 0x07 ∷ 0x70 ∷ 0x72 ∷ 0x69 ∷ 0x6E ∷ 0x74 ∷ 0x6C ∷ 0x6E
    ∷ 0x01 ∷ 0x00 ∷ 0x15 ∷ 0x28 ∷ 0x4C ∷ 0x6A ∷ 0x61 ∷ 0x76 ∷ 0x61 ∷ 0x2F ∷ 0x6C ∷ 0x61 ∷ 0x6E
    ∷ 0x67 ∷ 0x2F ∷ 0x53 ∷ 0x74 ∷ 0x72 ∷ 0x69 ∷ 0x6E ∷ 0x67 ∷ 0x3B ∷ 0x29 ∷ 0x56 ∷ 0x0C ∷ 0x00
    ∷ 0x11 ∷ 0x00 ∷ 0x12 ∷ 0x0A ∷ 0x00 ∷ 0x10 ∷ 0x00 ∷ 0x13 ∷ 0x01 ∷ 0x00 ∷ 0x12 ∷ 0x48 ∷ 0x65
    ∷ 0x6C ∷ 0x6C ∷ 0x6F ∷ 0x20 ∷ 0x66 ∷ 0x72 ∷ 0x6F ∷ 0x6D ∷ 0x20 ∷ 0x54 ∷ 0x69 ∷ 0x6E ∷ 0x79
    ∷ 0x4A ∷ 0x56 ∷ 0x4D ∷ 0x08 ∷ 0x00 ∷ 0x15 ∷ 0x01 ∷ 0x00 ∷ 0x04 ∷ 0x28 ∷ 0x49 ∷ 0x29 ∷ 0x56
    ∷ 0x0C ∷ 0x00 ∷ 0x11 ∷ 0x00 ∷ 0x17 ∷ 0x0A ∷ 0x00 ∷ 0x10 ∷ 0x00 ∷ 0x18 ∷ 0x01 ∷ 0x00 ∷ 0x04
    ∷ 0x43 ∷ 0x6F ∷ 0x64 ∷ 0x65 ∷ 0x01 ∷ 0x00 ∷ 0x04 ∷ 0x6D ∷ 0x61 ∷ 0x69 ∷ 0x6E ∷ 0x01 ∷ 0x00
    ∷ 0x16 ∷ 0x28 ∷ 0x5B ∷ 0x4C ∷ 0x6A ∷ 0x61 ∷ 0x76 ∷ 0x61 ∷ 0x2F ∷ 0x6C ∷ 0x61 ∷ 0x6E ∷ 0x67
    ∷ 0x2F ∷ 0x53 ∷ 0x74 ∷ 0x72 ∷ 0x69 ∷ 0x6E ∷ 0x67 ∷ 0x3B ∷ 0x29 ∷ 0x56 ∷ 0x00 ∷ 0x21 ∷ 0x00
    ∷ 0x02 ∷ 0x00 ∷ 0x04 ∷ 0x00 ∷ 0x00 ∷ 0x00 ∷ 0x00 ∷ 0x00 ∷ 0x01 ∷ 0x00 ∷ 0x09 ∷ 0x00 ∷ 0x1B
    ∷ 0x00 ∷ 0x1C ∷ 0x00 ∷ 0x01 ∷ 0x00 ∷ 0x1A ∷ 0x00 ∷ 0x00 ∷ 0x00 ∷ 0x1D ∷ 0x00 ∷ 0x02 ∷ 0x00
    ∷ 0x01 ∷ 0x00 ∷ 0x00 ∷ 0x00 ∷ 0x11 ∷ 0xB2 ∷ 0x00 ∷ 0x0E ∷ 0x12 ∷ 0x16 ∷ 0xB6 ∷ 0x00 ∷ 0x14
    ∷ 0xB2 ∷ 0x00 ∷ 0x0E ∷ 0x10 ∷ 0x0C ∷ 0xB6 ∷ 0x00 ∷ 0x19 ∷ 0xB1 ∷ 0x00 ∷ 0x00 ∷ 0x00 ∷ 0x00
    ∷ 0x00 ∷ 0x00 ∷ 0x50 ∷ 0x4B ∷ 0x01 ∷ 0x02 ∷ 0x14 ∷ 0x00 ∷ 0x14 ∷ 0x00 ∷ 0x00 ∷ 0x00 ∷ 0x00
    ∷ 0x00 ∷ 0x5C ∷ 0x9C ∷ 0x72 ∷ 0x5C ∷ 0x49 ∷ 0x59 ∷ 0x85 ∷ 0x8E ∷ 0x2C ∷ 0x00 ∷ 0x00 ∷ 0x00
    ∷ 0x2C ∷ 0x00 ∷ 0x00 ∷ 0x00 ∷ 0x14 ∷ 0x00 ∷ 0x00 ∷ 0x00 ∷ 0x00 ∷ 0x00 ∷ 0x00 ∷ 0x00 ∷ 0x00
    ∷ 0x00 ∷ 0x00 ∷ 0x00 ∷ 0x80 ∷ 0x01 ∷ 0x00 ∷ 0x00 ∷ 0x00 ∷ 0x00 ∷ 0x4D ∷ 0x45 ∷ 0x54 ∷ 0x41
    ∷ 0x2D ∷ 0x49 ∷ 0x4E ∷ 0x46 ∷ 0x2F ∷ 0x4D ∷ 0x41 ∷ 0x4E ∷ 0x49 ∷ 0x46 ∷ 0x45 ∷ 0x53 ∷ 0x54
    ∷ 0x2E ∷ 0x4D ∷ 0x46 ∷ 0x50 ∷ 0x4B ∷ 0x01 ∷ 0x02 ∷ 0x14 ∷ 0x00 ∷ 0x14 ∷ 0x00 ∷ 0x00 ∷ 0x00
    ∷ 0x00 ∷ 0x00 ∷ 0x5C ∷ 0x9C ∷ 0x72 ∷ 0x5C ∷ 0xCD ∷ 0x06 ∷ 0x52 ∷ 0x7A ∷ 0x50 ∷ 0x01 ∷ 0x00
    ∷ 0x00 ∷ 0x50 ∷ 0x01 ∷ 0x00 ∷ 0x00 ∷ 0x0B ∷ 0x00 ∷ 0x00 ∷ 0x00 ∷ 0x00 ∷ 0x00 ∷ 0x00 ∷ 0x00
    ∷ 0x00 ∷ 0x00 ∷ 0x00 ∷ 0x00 ∷ 0x80 ∷ 0x01 ∷ 0x5E ∷ 0x00 ∷ 0x00 ∷ 0x00 ∷ 0x48 ∷ 0x65 ∷ 0x6C
    ∷ 0x6C ∷ 0x6F ∷ 0x2E ∷ 0x63 ∷ 0x6C ∷ 0x61 ∷ 0x73 ∷ 0x73 ∷ 0x50 ∷ 0x4B ∷ 0x05 ∷ 0x06 ∷ 0x00
    ∷ 0x00 ∷ 0x00 ∷ 0x00 ∷ 0x02 ∷ 0x00 ∷ 0x02 ∷ 0x00 ∷ 0x7B ∷ 0x00 ∷ 0x00 ∷ 0x00 ∷ 0xD7 ∷ 0x01
    ∷ 0x00 ∷ 0x00 ∷ 0x00 ∷ 0x00 ∷ []

-- `text`, without its NUL
abbrev pub text_bytes : List ℕ
text_bytes =
    b'H' ∷ b'e' ∷ b'a' ∷ b't' ∷ b'O' ∷ b'S' ∷ b' ' ∷ b'd' ∷ b'e' ∷ b'm' ∷ b'o' ∷ b' ' ∷ b'f' ∷ b'i'
    ∷ b'l' ∷ b'e' ∷ b's' ∷ b'\n' ∷ b'-' ∷ b' ' ∷ b's' ∷ b'a' ∷ b'm' ∷ b'p' ∷ b'l' ∷ b'e' ∷ b'.'
    ∷ b'p' ∷ b'p' ∷ b'm' ∷ b' ' ∷ b':' ∷ b' ' ∷ b'i' ∷ b'm' ∷ b'a' ∷ b'g' ∷ b'e' ∷ b' ' ∷ b'p'
    ∷ b'r' ∷ b'e' ∷ b'v' ∷ b'i' ∷ b'e' ∷ b'w' ∷ b' ' ∷ b't' ∷ b'e' ∷ b's' ∷ b't' ∷ b'\n' ∷ b'-'
    ∷ b' ' ∷ b't' ∷ b'i' ∷ b'n' ∷ b'y' ∷ b'j' ∷ b'v' ∷ b'm' ∷ b'.' ∷ b'j' ∷ b'a' ∷ b'r' ∷ b':'
    ∷ b' ' ∷ b'T' ∷ b'i' ∷ b'n' ∷ b'y' ∷ b'J' ∷ b'V' ∷ b'M' ∷ b' ' ∷ b'r' ∷ b'u' ∷ b'n' ∷ b'n'
    ∷ b'a' ∷ b'b' ∷ b'l' ∷ b'e' ∷ b' ' ∷ b'j' ∷ b'a' ∷ b'r' ∷ b' ' ∷ b'd' ∷ b'e' ∷ b'm' ∷ b'o'
    ∷ b'\n' ∷ b'-' ∷ b' ' ∷ b'h' ∷ b'e' ∷ b'l' ∷ b'l' ∷ b'o' ∷ b'.' ∷ b'c' ∷ b'l' ∷ b'a' ∷ b's'
    ∷ b's' ∷ b':' ∷ b' ' ∷ b'T' ∷ b'i' ∷ b'n' ∷ b'y' ∷ b'J' ∷ b'V' ∷ b'M' ∷ b' ' ∷ b'd' ∷ b'i'
    ∷ b'r' ∷ b'e' ∷ b'c' ∷ b't' ∷ b' ' ∷ b'c' ∷ b'l' ∷ b'a' ∷ b's' ∷ b's' ∷ b' ' ∷ b'd' ∷ b'e'
    ∷ b'm' ∷ b'o' ∷ b'\n' ∷ b'-' ∷ b' ' ∷ b'h' ∷ b'e' ∷ b'l' ∷ b'l' ∷ b'o' ∷ b'.' ∷ b'j' ∷ b'a'
    ∷ b'r' ∷ b' ' ∷ b' ' ∷ b':' ∷ b' ' ∷ b'H' ∷ b'e' ∷ b'a' ∷ b't' ∷ b'O' ∷ b'S' ∷ b' ' ∷ b'm'
    ∷ b'i' ∷ b'n' ∷ b'i' ∷ b'-' ∷ b'J' ∷ b'a' ∷ b'v' ∷ b'a' ∷ b' ' ∷ b'a' ∷ b'r' ∷ b'c' ∷ b'h'
    ∷ b'i' ∷ b'v' ∷ b'e' ∷ b' ' ∷ b'(' ∷ b'H' ∷ b'J' ∷ b'A' ∷ b'R' ∷ b')' ∷ b'\n' ∷ b'-' ∷ b' '
    ∷ b's' ∷ b'a' ∷ b'm' ∷ b'p' ∷ b'l' ∷ b'e' ∷ b'.' ∷ b'j' ∷ b'a' ∷ b'r' ∷ b' ' ∷ b':' ∷ b' '
    ∷ b'Z' ∷ b'I' ∷ b'P' ∷ b'/' ∷ b'J' ∷ b'A' ∷ b'R' ∷ b' ' ∷ b'p' ∷ b'a' ∷ b'r' ∷ b's' ∷ b'i'
    ∷ b'n' ∷ b'g' ∷ b' ' ∷ b'd' ∷ b'e' ∷ b'm' ∷ b'o' ∷ b'\n' ∷ []
