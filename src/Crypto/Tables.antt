-- ===== src/Crypto/Tables.antt =====
-- native/cryptoprofile/tables.go: the S-boxes and the keys in effect before the login. The hex
-- texts of the source are written as the bytes that they stand for.
use txmlconnector.Common.{[], ◌∷◌, ◌++◌, Bytes}

unfoldable pub sbox_low : Bytes
sbox_low =
    206 ∷ 73 ∷ 98 ∷ 87 ∷ 84 ∷ 141 ∷ 140 ∷ 167 ∷ 233 ∷ 209 ∷ 214 ∷ 93 ∷ 251 ∷ 242 ∷ 17 ∷ 241 ∷ 168
    ∷ 225 ∷ 207 ∷ 105 ∷ 169 ∷ 182 ∷ 91 ∷ 25 ∷ 38 ∷ 7 ∷ 177 ∷ 49 ∷ 37 ∷ 146 ∷ 202 ∷ 194 ∷ 226 ∷ 24
    ∷ 201 ∷ 19 ∷ 147 ∷ 192 ∷ 97 ∷ 6 ∷ 126 ∷ 161 ∷ 120 ∷ 158 ∷ 123 ∷ 95 ∷ 72 ∷ 208 ∷ 173 ∷ 70 ∷ 187
    ∷ 127 ∷ 135 ∷ 234 ∷ 217 ∷ 109 ∷ 55 ∷ 162 ∷ 221 ∷ 31 ∷ 164 ∷ 255 ∷ 13 ∷ 213 ∷ 244 ∷ 64 ∷ 56 ∷ 121
    ∷ 183 ∷ 211 ∷ 179 ∷ 100 ∷ 16 ∷ 163 ∷ 254 ∷ 12 ∷ 4 ∷ 106 ∷ 160 ∷ 216 ∷ 210 ∷ 41 ∷ 247 ∷ 45 ∷ 28
    ∷ 144 ∷ 20 ∷ 92 ∷ 74 ∷ 152 ∷ 2 ∷ 149 ∷ 77 ∷ 174 ∷ 159 ∷ 26 ∷ 124 ∷ 245 ∷ 131 ∷ 104 ∷ 200 ∷ 113
    ∷ 197 ∷ 79 ∷ 66 ∷ 48 ∷ 220 ∷ 143 ∷ 222 ∷ 102 ∷ 156 ∷ 75 ∷ 33 ∷ 36 ∷ 71 ∷ 215 ∷ 65 ∷ 57 ∷ 59
    ∷ 114 ∷ 153 ∷ 186 ∷ 32 ∷ 81 ∷ 236 ∷ 188 ∷ 138 ∷ 52 ∷ 23 ∷ 5 ∷ 108 ∷ 11 ∷ 39 ∷ 61 ∷ 94 ∷ 99 ∷ 148
    ∷ 58 ∷ 128 ∷ 136 ∷ 193 ∷ 69 ∷ 44 ∷ 165 ∷ 8 ∷ 240 ∷ 90 ∷ 3 ∷ 27 ∷ 199 ∷ 198 ∷ 82 ∷ 205 ∷ 43 ∷ 89
    ∷ 228 ∷ 232 ∷ 107 ∷ 60 ∷ 88 ∷ 237 ∷ 189 ∷ 115 ∷ 178 ∷ 47 ∷ 204 ∷ 170 ∷ 139 ∷ 125 ∷ 253 ∷ 80 ∷ 68
    ∷ 239 ∷ 231 ∷ 252 ∷ 150 ∷ 154 ∷ 250 ∷ 122 ∷ 54 ∷ 151 ∷ 219 ∷ 155 ∷ 35 ∷ 185 ∷ 235 ∷ 42 ∷ 14
    ∷ 248 ∷ 129 ∷ 203 ∷ 67 ∷ 218 ∷ 85 ∷ 134 ∷ 15 ∷ 1 ∷ 78 ∷ 10 ∷ 133 ∷ 181 ∷ 53 ∷ 223 ∷ 118 ∷ 83
    ∷ 96 ∷ 63 ∷ 246 ∷ 137 ∷ 230 ∷ 249 ∷ 166 ∷ 243 ∷ 112 ∷ 46 ∷ 184 ∷ 132 ∷ 117 ∷ 229 ∷ 29 ∷ 224
    ∷ 176 ∷ 191 ∷ 30 ∷ 130 ∷ 196 ∷ 51 ∷ 22 ∷ 238 ∷ 190 ∷ 119 ∷ 212 ∷ 103 ∷ 171 ∷ 110 ∷ 145 ∷ 18
    ∷ 157 ∷ 172 ∷ 9 ∷ 180 ∷ 116 ∷ 175 ∷ 195 ∷ 76 ∷ 142 ∷ 227 ∷ 0 ∷ 111 ∷ 50 ∷ 86 ∷ 40 ∷ 101 ∷ 34
    ∷ 62 ∷ 21 ∷ []

unfoldable pub sbox_second : Bytes
sbox_second =
    172 ∷ 103 ∷ 192 ∷ 151 ∷ 124 ∷ 10 ∷ 42 ∷ 53 ∷ 199 ∷ 222 ∷ 45 ∷ 106 ∷ 177 ∷ 72 ∷ 213 ∷ 116 ∷ 71
    ∷ 142 ∷ 47 ∷ 223 ∷ 108 ∷ 171 ∷ 52 ∷ 227 ∷ 179 ∷ 128 ∷ 173 ∷ 58 ∷ 174 ∷ 228 ∷ 242 ∷ 233 ∷ 36
    ∷ 181 ∷ 89 ∷ 134 ∷ 147 ∷ 61 ∷ 8 ∷ 163 ∷ 1 ∷ 243 ∷ 115 ∷ 180 ∷ 211 ∷ 225 ∷ 145 ∷ 156 ∷ 188 ∷ 247
    ∷ 83 ∷ 77 ∷ 132 ∷ 5 ∷ 143 ∷ 197 ∷ 48 ∷ 122 ∷ 215 ∷ 235 ∷ 104 ∷ 212 ∷ 4 ∷ 19 ∷ 148 ∷ 55 ∷ 18
    ∷ 185 ∷ 24 ∷ 240 ∷ 218 ∷ 112 ∷ 65 ∷ 198 ∷ 46 ∷ 23 ∷ 237 ∷ 15 ∷ 31 ∷ 86 ∷ 193 ∷ 91 ∷ 186 ∷ 159
    ∷ 102 ∷ 107 ∷ 238 ∷ 25 ∷ 165 ∷ 190 ∷ 169 ∷ 234 ∷ 239 ∷ 94 ∷ 40 ∷ 139 ∷ 208 ∷ 202 ∷ 176 ∷ 217
    ∷ 50 ∷ 95 ∷ 127 ∷ 241 ∷ 138 ∷ 110 ∷ 167 ∷ 141 ∷ 226 ∷ 178 ∷ 210 ∷ 82 ∷ 121 ∷ 49 ∷ 118 ∷ 63 ∷ 38
    ∷ 51 ∷ 158 ∷ 249 ∷ 250 ∷ 13 ∷ 245 ∷ 16 ∷ 41 ∷ 57 ∷ 146 ∷ 207 ∷ 140 ∷ 62 ∷ 37 ∷ 157 ∷ 161 ∷ 154
    ∷ 93 ∷ 137 ∷ 254 ∷ 26 ∷ 204 ∷ 35 ∷ 184 ∷ 22 ∷ 206 ∷ 34 ∷ 21 ∷ 80 ∷ 119 ∷ 9 ∷ 232 ∷ 201 ∷ 166
    ∷ 73 ∷ 152 ∷ 98 ∷ 189 ∷ 209 ∷ 203 ∷ 125 ∷ 32 ∷ 182 ∷ 123 ∷ 0 ∷ 224 ∷ 111 ∷ 164 ∷ 81 ∷ 248 ∷ 20
    ∷ 251 ∷ 87 ∷ 11 ∷ 84 ∷ 162 ∷ 64 ∷ 14 ∷ 90 ∷ 69 ∷ 252 ∷ 74 ∷ 194 ∷ 70 ∷ 88 ∷ 60 ∷ 59 ∷ 135 ∷ 219
    ∷ 130 ∷ 44 ∷ 214 ∷ 101 ∷ 175 ∷ 92 ∷ 97 ∷ 78 ∷ 191 ∷ 114 ∷ 117 ∷ 216 ∷ 126 ∷ 136 ∷ 255 ∷ 43 ∷ 67
    ∷ 29 ∷ 133 ∷ 187 ∷ 246 ∷ 236 ∷ 33 ∷ 113 ∷ 54 ∷ 17 ∷ 153 ∷ 200 ∷ 96 ∷ 229 ∷ 2 ∷ 27 ∷ 149 ∷ 105
    ∷ 56 ∷ 253 ∷ 75 ∷ 195 ∷ 221 ∷ 155 ∷ 168 ∷ 79 ∷ 129 ∷ 220 ∷ 183 ∷ 205 ∷ 68 ∷ 230 ∷ 76 ∷ 196 ∷ 3
    ∷ 30 ∷ 39 ∷ 231 ∷ 66 ∷ 6 ∷ 144 ∷ 131 ∷ 109 ∷ 12 ∷ 160 ∷ 100 ∷ 28 ∷ 99 ∷ 150 ∷ 170 ∷ 7 ∷ 85 ∷ 120
    ∷ 244 ∷ []

unfoldable pub sbox_third : Bytes
sbox_third =
    56 ∷ 46 ∷ 70 ∷ 145 ∷ 133 ∷ 241 ∷ 81 ∷ 184 ∷ 76 ∷ 121 ∷ 252 ∷ 182 ∷ 131 ∷ 203 ∷ 194 ∷ 154 ∷ 73
    ∷ 115 ∷ 249 ∷ 59 ∷ 146 ∷ 120 ∷ 168 ∷ 127 ∷ 155 ∷ 198 ∷ 222 ∷ 200 ∷ 72 ∷ 21 ∷ 224 ∷ 14 ∷ 230
    ∷ 134 ∷ 77 ∷ 28 ∷ 220 ∷ 110 ∷ 175 ∷ 196 ∷ 149 ∷ 226 ∷ 165 ∷ 159 ∷ 61 ∷ 205 ∷ 64 ∷ 221 ∷ 41 ∷ 111
    ∷ 33 ∷ 254 ∷ 126 ∷ 148 ∷ 213 ∷ 238 ∷ 180 ∷ 5 ∷ 137 ∷ 214 ∷ 239 ∷ 178 ∷ 4 ∷ 22 ∷ 217 ∷ 236 ∷ 37
    ∷ 85 ∷ 186 ∷ 101 ∷ 17 ∷ 79 ∷ 40 ∷ 170 ∷ 97 ∷ 52 ∷ 88 ∷ 1 ∷ 103 ∷ 19 ∷ 92 ∷ 177 ∷ 169 ∷ 57 ∷ 211
    ∷ 23 ∷ 8 ∷ 47 ∷ 102 ∷ 176 ∷ 171 ∷ 105 ∷ 74 ∷ 122 ∷ 31 ∷ 208 ∷ 172 ∷ 144 ∷ 193 ∷ 197 ∷ 71 ∷ 7
    ∷ 90 ∷ 113 ∷ 128 ∷ 242 ∷ 181 ∷ 84 ∷ 91 ∷ 207 ∷ 150 ∷ 10 ∷ 98 ∷ 218 ∷ 45 ∷ 43 ∷ 116 ∷ 13 ∷ 27
    ∷ 253 ∷ 237 ∷ 39 ∷ 42 ∷ 82 ∷ 232 ∷ 227 ∷ 106 ∷ 157 ∷ 125 ∷ 51 ∷ 151 ∷ 49 ∷ 67 ∷ 11 ∷ 119 ∷ 112
    ∷ 83 ∷ 152 ∷ 190 ∷ 162 ∷ 53 ∷ 75 ∷ 202 ∷ 0 ∷ 18 ∷ 210 ∷ 6 ∷ 38 ∷ 99 ∷ 250 ∷ 123 ∷ 234 ∷ 166 ∷ 35
    ∷ 183 ∷ 248 ∷ 58 ∷ 109 ∷ 225 ∷ 87 ∷ 89 ∷ 156 ∷ 161 ∷ 139 ∷ 55 ∷ 132 ∷ 153 ∷ 63 ∷ 32 ∷ 212 ∷ 247
    ∷ 138 ∷ 15 ∷ 24 ∷ 114 ∷ 233 ∷ 160 ∷ 142 ∷ 95 ∷ 69 ∷ 136 ∷ 185 ∷ 100 ∷ 16 ∷ 44 ∷ 118 ∷ 62 ∷ 244
    ∷ 2 ∷ 251 ∷ 104 ∷ 206 ∷ 129 ∷ 25 ∷ 231 ∷ 124 ∷ 246 ∷ 20 ∷ 219 ∷ 60 ∷ 209 ∷ 199 ∷ 204 ∷ 235 ∷ 9
    ∷ 50 ∷ 68 ∷ 188 ∷ 191 ∷ 130 ∷ 223 ∷ 164 ∷ 216 ∷ 12 ∷ 135 ∷ 167 ∷ 229 ∷ 78 ∷ 143 ∷ 201 ∷ 108
    ∷ 117 ∷ 215 ∷ 173 ∷ 140 ∷ 240 ∷ 174 ∷ 36 ∷ 30 ∷ 86 ∷ 94 ∷ 245 ∷ 29 ∷ 195 ∷ 147 ∷ 179 ∷ 189 ∷ 243
    ∷ 3 ∷ 96 ∷ 192 ∷ 66 ∷ 34 ∷ 163 ∷ 228 ∷ 93 ∷ 80 ∷ 48 ∷ 54 ∷ 107 ∷ 65 ∷ 158 ∷ 26 ∷ 141 ∷ 255 ∷ 187
    ∷ []

unfoldable pub sbox_high : Bytes
sbox_high =
    78 ∷ 13 ∷ 120 ∷ 130 ∷ 243 ∷ 57 ∷ 101 ∷ 28 ∷ 247 ∷ 51 ∷ 199 ∷ 145 ∷ 139 ∷ 1 ∷ 248 ∷ 14 ∷ 84 ∷ 33
    ∷ 47 ∷ 241 ∷ 35 ∷ 132 ∷ 17 ∷ 251 ∷ 178 ∷ 36 ∷ 232 ∷ 177 ∷ 205 ∷ 194 ∷ 148 ∷ 129 ∷ 218 ∷ 121 ∷ 75
    ∷ 66 ∷ 182 ∷ 24 ∷ 56 ∷ 144 ∷ 151 ∷ 209 ∷ 124 ∷ 152 ∷ 255 ∷ 211 ∷ 31 ∷ 85 ∷ 229 ∷ 22 ∷ 10 ∷ 50
    ∷ 128 ∷ 114 ∷ 215 ∷ 111 ∷ 134 ∷ 162 ∷ 12 ∷ 119 ∷ 150 ∷ 210 ∷ 118 ∷ 219 ∷ 8 ∷ 92 ∷ 117 ∷ 169 ∷ 4
    ∷ 164 ∷ 73 ∷ 180 ∷ 158 ∷ 138 ∷ 30 ∷ 113 ∷ 3 ∷ 82 ∷ 222 ∷ 154 ∷ 97 ∷ 206 ∷ 170 ∷ 83 ∷ 46 ∷ 217
    ∷ 21 ∷ 133 ∷ 81 ∷ 109 ∷ 115 ∷ 58 ∷ 125 ∷ 18 ∷ 213 ∷ 65 ∷ 143 ∷ 153 ∷ 68 ∷ 5 ∷ 220 ∷ 106 ∷ 44
    ∷ 240 ∷ 9 ∷ 216 ∷ 141 ∷ 69 ∷ 191 ∷ 165 ∷ 237 ∷ 246 ∷ 34 ∷ 254 ∷ 157 ∷ 96 ∷ 80 ∷ 52 ∷ 38 ∷ 16
    ∷ 250 ∷ 20 ∷ 136 ∷ 131 ∷ 168 ∷ 88 ∷ 227 ∷ 61 ∷ 89 ∷ 40 ∷ 200 ∷ 235 ∷ 146 ∷ 104 ∷ 110 ∷ 7 ∷ 116
    ∷ 140 ∷ 60 ∷ 103 ∷ 102 ∷ 252 ∷ 189 ∷ 230 ∷ 53 ∷ 122 ∷ 23 ∷ 49 ∷ 6 ∷ 59 ∷ 198 ∷ 228 ∷ 253 ∷ 234
    ∷ 74 ∷ 71 ∷ 99 ∷ 126 ∷ 196 ∷ 26 ∷ 0 ∷ 193 ∷ 181 ∷ 127 ∷ 29 ∷ 142 ∷ 190 ∷ 226 ∷ 225 ∷ 63 ∷ 244
    ∷ 173 ∷ 72 ∷ 221 ∷ 64 ∷ 245 ∷ 48 ∷ 70 ∷ 62 ∷ 107 ∷ 90 ∷ 94 ∷ 187 ∷ 179 ∷ 112 ∷ 108 ∷ 79 ∷ 197
    ∷ 55 ∷ 137 ∷ 2 ∷ 37 ∷ 249 ∷ 192 ∷ 186 ∷ 159 ∷ 41 ∷ 160 ∷ 201 ∷ 76 ∷ 91 ∷ 67 ∷ 236 ∷ 224 ∷ 93
    ∷ 183 ∷ 203 ∷ 208 ∷ 11 ∷ 156 ∷ 135 ∷ 195 ∷ 25 ∷ 184 ∷ 231 ∷ 204 ∷ 163 ∷ 45 ∷ 212 ∷ 95 ∷ 15 ∷ 19
    ∷ 42 ∷ 32 ∷ 147 ∷ 43 ∷ 87 ∷ 223 ∷ 155 ∷ 166 ∷ 214 ∷ 233 ∷ 98 ∷ 54 ∷ 207 ∷ 175 ∷ 171 ∷ 242 ∷ 176
    ∷ 161 ∷ 239 ∷ 39 ∷ 202 ∷ 86 ∷ 238 ∷ 77 ∷ 27 ∷ 105 ∷ 188 ∷ 172 ∷ 174 ∷ 100 ∷ 123 ∷ 149 ∷ 167
    ∷ 185 ∷ []

unfoldable pub sbox_table : Bytes
unfolding sbox_low sbox_second sbox_third sbox_high
sbox_table = sbox_low ++ sbox_second ++ sbox_third ++ sbox_high

unfoldable pub default_key : Bytes
default_key =
    13 ∷ 210 ∷ 3 ∷ 156 ∷ 63 ∷ 65 ∷ 238 ∷ 124 ∷ 255 ∷ 31 ∷ 49 ∷ 89 ∷ 186 ∷ 61 ∷ 47 ∷ 153 ∷ 139 ∷ 85
    ∷ 134 ∷ 242 ∷ 163 ∷ 228 ∷ 149 ∷ 218 ∷ 238 ∷ 55 ∷ 60 ∷ 63 ∷ 244 ∷ 201 ∷ 226 ∷ 121 ∷ []

unfoldable pub default_sync : Bytes
default_sync = 253 ∷ 204 ∷ 189 ∷ 125 ∷ 120 ∷ 6 ∷ 77 ∷ 83 ∷ []
