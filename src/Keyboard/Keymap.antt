-- ===== src/Keyboard/Keymap.antt =====
-- include/keymap.h: for each scan code the key without shift, with shift, and behind 0xE0.
use lychee_os.Base.{ℕ, List, [], ◌∷◌}

abbrev pub keymap : List ℕ
keymap =
    0 ∷ 0 ∷ 0 ∷ 129 ∷ 0 ∷ 0 ∷ 49 ∷ 33 ∷ 0 ∷ 50 ∷ 64 ∷ 0 ∷ 51 ∷ 35 ∷ 0 ∷ 52 ∷ 36 ∷ 0 ∷ 53 ∷ 37 ∷ 0
    ∷ 54 ∷ 94 ∷ 0 ∷ 55 ∷ 38 ∷ 0 ∷ 56 ∷ 42 ∷ 0 ∷ 57 ∷ 40 ∷ 0 ∷ 48 ∷ 41 ∷ 0 ∷ 45 ∷ 95 ∷ 0 ∷ 61 ∷ 43
    ∷ 0 ∷ 132 ∷ 132 ∷ 0 ∷ 130 ∷ 130 ∷ 0 ∷ 113 ∷ 81 ∷ 0 ∷ 119 ∷ 87 ∷ 0 ∷ 101 ∷ 69 ∷ 0 ∷ 114 ∷ 82 ∷ 0
    ∷ 116 ∷ 84 ∷ 0 ∷ 121 ∷ 89 ∷ 0 ∷ 117 ∷ 85 ∷ 0 ∷ 105 ∷ 73 ∷ 0 ∷ 111 ∷ 79 ∷ 0 ∷ 112 ∷ 80 ∷ 0 ∷ 91
    ∷ 123 ∷ 0 ∷ 93 ∷ 125 ∷ 0 ∷ 131 ∷ 131 ∷ 176 ∷ 138 ∷ 138 ∷ 139 ∷ 97 ∷ 65 ∷ 0 ∷ 115 ∷ 83 ∷ 0 ∷ 100
    ∷ 68 ∷ 0 ∷ 102 ∷ 70 ∷ 0 ∷ 103 ∷ 71 ∷ 0 ∷ 104 ∷ 72 ∷ 0 ∷ 106 ∷ 74 ∷ 0 ∷ 107 ∷ 75 ∷ 0 ∷ 108 ∷ 76
    ∷ 0 ∷ 59 ∷ 58 ∷ 0 ∷ 39 ∷ 34 ∷ 0 ∷ 96 ∷ 126 ∷ 0 ∷ 136 ∷ 136 ∷ 0 ∷ 92 ∷ 124 ∷ 0 ∷ 122 ∷ 90 ∷ 0
    ∷ 120 ∷ 88 ∷ 0 ∷ 99 ∷ 67 ∷ 0 ∷ 118 ∷ 86 ∷ 0 ∷ 98 ∷ 66 ∷ 0 ∷ 110 ∷ 78 ∷ 0 ∷ 109 ∷ 77 ∷ 0 ∷ 44
    ∷ 60 ∷ 0 ∷ 46 ∷ 62 ∷ 0 ∷ 47 ∷ 63 ∷ 172 ∷ 137 ∷ 137 ∷ 0 ∷ 173 ∷ 173 ∷ 0 ∷ 140 ∷ 140 ∷ 141 ∷ 32
    ∷ 32 ∷ 0 ∷ 142 ∷ 142 ∷ 0 ∷ 145 ∷ 145 ∷ 0 ∷ 146 ∷ 146 ∷ 0 ∷ 147 ∷ 147 ∷ 0 ∷ 148 ∷ 148 ∷ 0 ∷ 149
    ∷ 149 ∷ 0 ∷ 150 ∷ 150 ∷ 0 ∷ 151 ∷ 151 ∷ 0 ∷ 152 ∷ 152 ∷ 0 ∷ 153 ∷ 153 ∷ 0 ∷ 154 ∷ 154 ∷ 0 ∷ 143
    ∷ 143 ∷ 0 ∷ 144 ∷ 144 ∷ 0 ∷ 185 ∷ 185 ∷ 161 ∷ 186 ∷ 186 ∷ 165 ∷ 187 ∷ 187 ∷ 163 ∷ 174 ∷ 174 ∷ 0
    ∷ 182 ∷ 182 ∷ 167 ∷ 183 ∷ 183 ∷ 0 ∷ 184 ∷ 184 ∷ 168 ∷ 175 ∷ 175 ∷ 0 ∷ 179 ∷ 179 ∷ 162 ∷ 180
    ∷ 180 ∷ 166 ∷ 181 ∷ 181 ∷ 164 ∷ 178 ∷ 178 ∷ 159 ∷ 177 ∷ 177 ∷ 0 ∷ 0 ∷ 0 ∷ 0 ∷ 0 ∷ 0 ∷ 0 ∷ 0 ∷ 0
    ∷ 0 ∷ 155 ∷ 155 ∷ 0 ∷ 156 ∷ 156 ∷ 0 ∷ 0 ∷ 0 ∷ 0 ∷ 0 ∷ 0 ∷ 0 ∷ 0 ∷ 0 ∷ 133 ∷ 0 ∷ 0 ∷ 134 ∷ 0 ∷ 0
    ∷ 135 ∷ 0 ∷ 0 ∷ 0 ∷ 0 ∷ 0 ∷ 0 ∷ 0 ∷ 0 ∷ 0 ∷ 0 ∷ 0 ∷ 0 ∷ 0 ∷ 0 ∷ 0 ∷ 0 ∷ 0 ∷ 0 ∷ 0 ∷ 0 ∷ 0 ∷ 0
    ∷ 0 ∷ 0 ∷ 0 ∷ 0 ∷ 0 ∷ 0 ∷ 0 ∷ 0 ∷ 0 ∷ 0 ∷ 0 ∷ 0 ∷ 0 ∷ 0 ∷ 0 ∷ 0 ∷ 0 ∷ 0 ∷ 0 ∷ 0 ∷ 0 ∷ 0 ∷ 0 ∷ 0
    ∷ 0 ∷ 0 ∷ 0 ∷ 0 ∷ 0 ∷ 0 ∷ 0 ∷ 0 ∷ 0 ∷ 0 ∷ 0 ∷ 0 ∷ 0 ∷ 0 ∷ 0 ∷ 0 ∷ 0 ∷ 0 ∷ 0 ∷ 0 ∷ 0 ∷ 0 ∷ 0 ∷ 0
    ∷ 0 ∷ 0 ∷ 0 ∷ 0 ∷ 0 ∷ 0 ∷ 0 ∷ 0 ∷ 0 ∷ 0 ∷ 0 ∷ 0 ∷ 0 ∷ 0 ∷ 0 ∷ 0 ∷ 0 ∷ 0 ∷ 0 ∷ 0 ∷ 0 ∷ 0 ∷ 0 ∷ 0
    ∷ 0 ∷ 0 ∷ 0 ∷ 0 ∷ 0 ∷ 0 ∷ 0 ∷ 0 ∷ []
