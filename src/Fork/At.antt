-- ===== src/Fork/At.antt =====
-- The offsets in `struct_process` of include/process.h, whose fields are words, and its size in words.
use lychee_os.Base.{ℕ}

abbrev pub start_code : ℕ
start_code = 152

abbrev pub pid : ℕ
pid = 172

abbrev pub ppid : ℕ
ppid = 176

abbrev pub user_time : ℕ
user_time = 180

abbrev pub kernel_time : ℕ
kernel_time = 184

abbrev pub create_time : ℕ
create_time = 188

abbrev pub tty : ℕ
tty = 196

abbrev pub pwd : ℕ
pwd = 200

abbrev pub root : ℕ
root = 204

abbrev pub image : ℕ
image = 208

abbrev pub files : ℕ
files = 212

abbrev pub ldt : ℕ
ldt = 244

abbrev pub tss : ℕ
tss = 268

abbrev pub words : ℕ
words = 93
