-- ===== src/Hc/HuffmanTable.antt =====
-- hc/huffmantable.go: the length and the value of the code of each byte, by the byte.
use minhq.Base.{ℕ, List, [], ◌∷◌}

pub record HuffmanTableItem : Type 0 where
  pub len : ℕ
  pub val : ℕ

abbrev item : ℕ → ℕ → HuffmanTableItem
item len val = record { len = len; val = val }

abbrev pub huffman_table : List HuffmanTableItem
huffman_table =
    item 13 0x1ff8
    ∷ item 23 0x7fffd8
    ∷ item 28 0xfffffe2
    ∷ item 28 0xfffffe3
    ∷ item 28 0xfffffe4
    ∷ item 28 0xfffffe5
    ∷ item 28 0xfffffe6
    ∷ item 28 0xfffffe7
    ∷ item 28 0xfffffe8
    ∷ item 24 0xffffea
    ∷ item 30 0x3ffffffc
    ∷ item 28 0xfffffe9
    ∷ item 28 0xfffffea
    ∷ item 30 0x3ffffffd
    ∷ item 28 0xfffffeb
    ∷ item 28 0xfffffec
    ∷ item 28 0xfffffed
    ∷ item 28 0xfffffee
    ∷ item 28 0xfffffef
    ∷ item 28 0xffffff0
    ∷ item 28 0xffffff1
    ∷ item 28 0xffffff2
    ∷ item 30 0x3ffffffe
    ∷ item 28 0xffffff3
    ∷ item 28 0xffffff4
    ∷ item 28 0xffffff5
    ∷ item 28 0xffffff6
    ∷ item 28 0xffffff7
    ∷ item 28 0xffffff8
    ∷ item 28 0xffffff9
    ∷ item 28 0xffffffa
    ∷ item 28 0xffffffb
    ∷ item 6 0x14
    ∷ item 10 0x3f8
    ∷ item 10 0x3f9
    ∷ item 12 0xffa
    ∷ item 13 0x1ff9
    ∷ item 6 0x15
    ∷ item 8 0xf8
    ∷ item 11 0x7fa
    ∷ item 10 0x3fa
    ∷ item 10 0x3fb
    ∷ item 8 0xf9
    ∷ item 11 0x7fb
    ∷ item 8 0xfa
    ∷ item 6 0x16
    ∷ item 6 0x17
    ∷ item 6 0x18
    ∷ item 5 0x0
    ∷ item 5 0x1
    ∷ item 5 0x2
    ∷ item 6 0x19
    ∷ item 6 0x1a
    ∷ item 6 0x1b
    ∷ item 6 0x1c
    ∷ item 6 0x1d
    ∷ item 6 0x1e
    ∷ item 6 0x1f
    ∷ item 7 0x5c
    ∷ item 8 0xfb
    ∷ item 15 0x7ffc
    ∷ item 6 0x20
    ∷ item 12 0xffb
    ∷ item 10 0x3fc
    ∷ item 13 0x1ffa
    ∷ item 6 0x21
    ∷ item 7 0x5d
    ∷ item 7 0x5e
    ∷ item 7 0x5f
    ∷ item 7 0x60
    ∷ item 7 0x61
    ∷ item 7 0x62
    ∷ item 7 0x63
    ∷ item 7 0x64
    ∷ item 7 0x65
    ∷ item 7 0x66
    ∷ item 7 0x67
    ∷ item 7 0x68
    ∷ item 7 0x69
    ∷ item 7 0x6a
    ∷ item 7 0x6b
    ∷ item 7 0x6c
    ∷ item 7 0x6d
    ∷ item 7 0x6e
    ∷ item 7 0x6f
    ∷ item 7 0x70
    ∷ item 7 0x71
    ∷ item 7 0x72
    ∷ item 8 0xfc
    ∷ item 7 0x73
    ∷ item 8 0xfd
    ∷ item 13 0x1ffb
    ∷ item 19 0x7fff0
    ∷ item 13 0x1ffc
    ∷ item 14 0x3ffc
    ∷ item 6 0x22
    ∷ item 15 0x7ffd
    ∷ item 5 0x3
    ∷ item 6 0x23
    ∷ item 5 0x4
    ∷ item 6 0x24
    ∷ item 5 0x5
    ∷ item 6 0x25
    ∷ item 6 0x26
    ∷ item 6 0x27
    ∷ item 5 0x6
    ∷ item 7 0x74
    ∷ item 7 0x75
    ∷ item 6 0x28
    ∷ item 6 0x29
    ∷ item 6 0x2a
    ∷ item 5 0x7
    ∷ item 6 0x2b
    ∷ item 7 0x76
    ∷ item 6 0x2c
    ∷ item 5 0x8
    ∷ item 5 0x9
    ∷ item 6 0x2d
    ∷ item 7 0x77
    ∷ item 7 0x78
    ∷ item 7 0x79
    ∷ item 7 0x7a
    ∷ item 7 0x7b
    ∷ item 15 0x7ffe
    ∷ item 11 0x7fc
    ∷ item 14 0x3ffd
    ∷ item 13 0x1ffd
    ∷ item 28 0xffffffc
    ∷ item 20 0xfffe6
    ∷ item 22 0x3fffd2
    ∷ item 20 0xfffe7
    ∷ item 20 0xfffe8
    ∷ item 22 0x3fffd3
    ∷ item 22 0x3fffd4
    ∷ item 22 0x3fffd5
    ∷ item 23 0x7fffd9
    ∷ item 22 0x3fffd6
    ∷ item 23 0x7fffda
    ∷ item 23 0x7fffdb
    ∷ item 23 0x7fffdc
    ∷ item 23 0x7fffdd
    ∷ item 23 0x7fffde
    ∷ item 24 0xffffeb
    ∷ item 23 0x7fffdf
    ∷ item 24 0xffffec
    ∷ item 24 0xffffed
    ∷ item 22 0x3fffd7
    ∷ item 23 0x7fffe0
    ∷ item 24 0xffffee
    ∷ item 23 0x7fffe1
    ∷ item 23 0x7fffe2
    ∷ item 23 0x7fffe3
    ∷ item 23 0x7fffe4
    ∷ item 21 0x1fffdc
    ∷ item 22 0x3fffd8
    ∷ item 23 0x7fffe5
    ∷ item 22 0x3fffd9
    ∷ item 23 0x7fffe6
    ∷ item 23 0x7fffe7
    ∷ item 24 0xffffef
    ∷ item 22 0x3fffda
    ∷ item 21 0x1fffdd
    ∷ item 20 0xfffe9
    ∷ item 22 0x3fffdb
    ∷ item 22 0x3fffdc
    ∷ item 23 0x7fffe8
    ∷ item 23 0x7fffe9
    ∷ item 21 0x1fffde
    ∷ item 23 0x7fffea
    ∷ item 22 0x3fffdd
    ∷ item 22 0x3fffde
    ∷ item 24 0xfffff0
    ∷ item 21 0x1fffdf
    ∷ item 22 0x3fffdf
    ∷ item 23 0x7fffeb
    ∷ item 23 0x7fffec
    ∷ item 21 0x1fffe0
    ∷ item 21 0x1fffe1
    ∷ item 22 0x3fffe0
    ∷ item 21 0x1fffe2
    ∷ item 23 0x7fffed
    ∷ item 22 0x3fffe1
    ∷ item 23 0x7fffee
    ∷ item 23 0x7fffef
    ∷ item 20 0xfffea
    ∷ item 22 0x3fffe2
    ∷ item 22 0x3fffe3
    ∷ item 22 0x3fffe4
    ∷ item 23 0x7ffff0
    ∷ item 22 0x3fffe5
    ∷ item 22 0x3fffe6
    ∷ item 23 0x7ffff1
    ∷ item 26 0x3ffffe0
    ∷ item 26 0x3ffffe1
    ∷ item 20 0xfffeb
    ∷ item 19 0x7fff1
    ∷ item 22 0x3fffe7
    ∷ item 23 0x7ffff2
    ∷ item 22 0x3fffe8
    ∷ item 25 0x1ffffec
    ∷ item 26 0x3ffffe2
    ∷ item 26 0x3ffffe3
    ∷ item 26 0x3ffffe4
    ∷ item 27 0x7ffffde
    ∷ item 27 0x7ffffdf
    ∷ item 26 0x3ffffe5
    ∷ item 24 0xfffff1
    ∷ item 25 0x1ffffed
    ∷ item 19 0x7fff2
    ∷ item 21 0x1fffe3
    ∷ item 26 0x3ffffe6
    ∷ item 27 0x7ffffe0
    ∷ item 27 0x7ffffe1
    ∷ item 26 0x3ffffe7
    ∷ item 27 0x7ffffe2
    ∷ item 24 0xfffff2
    ∷ item 21 0x1fffe4
    ∷ item 21 0x1fffe5
    ∷ item 26 0x3ffffe8
    ∷ item 26 0x3ffffe9
    ∷ item 28 0xffffffd
    ∷ item 27 0x7ffffe3
    ∷ item 27 0x7ffffe4
    ∷ item 27 0x7ffffe5
    ∷ item 20 0xfffec
    ∷ item 24 0xfffff3
    ∷ item 20 0xfffed
    ∷ item 21 0x1fffe6
    ∷ item 22 0x3fffe9
    ∷ item 21 0x1fffe7
    ∷ item 21 0x1fffe8
    ∷ item 23 0x7ffff3
    ∷ item 22 0x3fffea
    ∷ item 22 0x3fffeb
    ∷ item 25 0x1ffffee
    ∷ item 25 0x1ffffef
    ∷ item 24 0xfffff4
    ∷ item 24 0xfffff5
    ∷ item 26 0x3ffffea
    ∷ item 23 0x7ffff4
    ∷ item 26 0x3ffffeb
    ∷ item 27 0x7ffffe6
    ∷ item 26 0x3ffffec
    ∷ item 26 0x3ffffed
    ∷ item 27 0x7ffffe7
    ∷ item 27 0x7ffffe8
    ∷ item 27 0x7ffffe9
    ∷ item 27 0x7ffffea
    ∷ item 27 0x7ffffeb
    ∷ item 28 0xffffffe
    ∷ item 27 0x7ffffec
    ∷ item 27 0x7ffffed
    ∷ item 27 0x7ffffee
    ∷ item 27 0x7ffffef
    ∷ item 27 0x7fffff0
    ∷ item 26 0x3ffffee
    ∷ []
