-- ===== src/Memory/Tools.antt =====
-- Concrete stand-ins for the other packages: numbers and times as text, JSON, counters and floats.
use Prim.Native.Char.{code}
use dist_tasks_go.Base.{
  ℕ, zero, suc, String, ◌≡◌, refl, ap, ◌==◌, ◌-ℤ◌, true, false, none, some, [], ◌∷◌, ℤ, pos, negsuc,
  ◌+ℤ◌, ltb_ℤ, str_eq, if◌then◌else◌, ◌&&◌,
}
use dist_tasks_go.Redis.{Fields, is_some, hset}
use dist_tasks_go.Memory.{MemDb, mem_marshal, mem_parse, spell, mem_exec, put}
use dist_tasks_go.Memory.Server.{mem_redis, decoded}
use dist_tasks_go.Store.Fields.{Codec, lookup}
use dist_tasks_go.Downstream.{Counters}
use dist_tasks_go.Queue.Retry.{Floats}

-- A number as its sign and as many strokes.
strokes : ℕ → String
strokes zero = ""
strokes (suc n) = String.◌∷◌ "1" (strokes n)

count_strokes : String → ℕ
count_strokes String.[] = 0
count_strokes (String.◌∷◌ c s) = suc (count_strokes s)

unfoldable pub mem_itoa : ℤ → String
unfolding strokes
mem_itoa (pos n) = String.◌∷◌ "+" (strokes n)
mem_itoa (negsuc n) = String.◌∷◌ "-" (strokes n)

unfoldable pub mem_number : String → ℤ
unfolding count_strokes
mem_number String.[] = pos 0
mem_number (String.◌∷◌ c s) =
    if code c == code "+" then pos (count_strokes s) else negsuc (count_strokes s)

count-strokes : (n : ℕ) → count_strokes (strokes n) ≡ n
unfolding count_strokes strokes
count-strokes zero = refl
count-strokes (suc n) = ap suc (count-strokes n)

pub number-itoa : (n : ℤ) → mem_number (mem_itoa n) ≡ n
unfolding mem_number mem_itoa
number-itoa (pos n) = ap pos (count-strokes n)
number-itoa (negsuc n) = ap negsuc (count-strokes n)

parse-spell_k :
    (s rest k v : String) (m : Fields)
    → mem_parse rest ≡ ("", v, m)
    → mem_parse (spell "k" s rest) ≡ (s, v, m)
unfolding mem_parse
parse-spell_k String.[] rest k v m h = h
parse-spell_k (String.◌∷◌ c s) rest k v m h = ap (put "k" c) (parse-spell_k s rest k v m h)

parse-spell_v :
    (s rest : String) (m : Fields)
    → mem_parse rest ≡ ("", "", m)
    → mem_parse (spell "v" s rest) ≡ ("", s, m)
unfolding mem_parse
parse-spell_v String.[] rest m h = h
parse-spell_v (String.◌∷◌ c s) rest m h = ap (put "v" c) (parse-spell_v s rest m h)

pub parse-marshal : (m : Fields) → mem_parse (mem_marshal m) ≡ ("", "", m)
unfolding mem_marshal mem_parse
parse-marshal [] = refl
parse-marshal ((k, v) ∷ m) = ap (put "p" "p") (
    parse-spell_k k (spell "v" v (mem_marshal m)) k v m
      (parse-spell_v v (mem_marshal m) m (parse-marshal m)))

pub decode-marshal_mem :
    (f : Fields)
    → (f' : Fields) × (decoded (mem_marshal f) ≡ some f')
      × ((k : String) → lookup k f' ≡ lookup k f)
unfolding decoded
decode-marshal_mem f = (f, ap (λ x. some x.2) (parse-marshal f), λ k. refl)

abbrev pub mem_codec : Codec mem_redis
mem_codec = record {
  itoa = mem_itoa;
  atoi = λ s. some (mem_number s);
  format_time = mem_itoa;
  parse_time = λ s. some (mem_number s);
  marshal = mem_marshal;
  error_text = λ e. "bad";
  atoi-itoa = λ n h. ap some (number-itoa n);
  parse-format = λ t h. ap some (number-itoa t);
  decode-marshal = decode-marshal_mem;
}

pub mem_exec-counts :
    (k f v : String) (d : MemDb) (k' f' : String)
    → (mem_exec (hset k f v) d).counts k' f' ≡ d.counts k' f'
unfolding mem_exec
mem_exec-counts k f v d k' f' = refl

abbrev pub mem_counters : Counters mem_redis
mem_counters = record {
  number = mem_itoa;
  tonumber = mem_number;
  hincrby = λ k f n d. record d {
    counts = λ k' f'. if str_eq k k' && str_eq f f' then d.counts k' f' +ℤ n else d.counts k' f';
  };
  count = λ d. d.counts;
  hsetnx =
      λ k f v d. if is_some (d.hashes k f) then (false, d) else (true, mem_exec (hset k f v) d);
  tonumber-number = λ n h. number-itoa n;
  hsetnx_lem = λ k f v d. refl;
  count-hincrby = λ k f n d k' f'. refl;
  hash-hincrby = λ k f n d k' f' h. refl;
  count-hset = λ k f v d k' f' h. mem_exec-counts k f v d k' f';
}

-- Whole numbers, with a draw of 0.
abbrev pub whole : Floats
whole = record {
  Float = ℤ;
  zero = pos 0;
  one = pos 1;
  of_int = λ n. n;
  trunc = λ n. n;
  ltb = ltb_ℤ;
  min = λ a b. if ltb_ℤ b a then b else a;
  max = λ a b. if ltb_ℤ a b then b else a;
  add = λ a b. a +ℤ b;
  sub = λ a b. a -ℤ b;
  mul = λ a b. if ltb_ℤ b (pos 1) then pos 0 else a;
  draw = pos 0;
}

-- A server that holds nothing yet.
abbrev pub empty_db : MemDb
empty_db = record {
  streams = λ k. [];
  deliveries = λ k g i. none;
  hashes = λ k f. none;
  scores = λ k m. none;
  members = λ k. [];
  texts = λ k. none;
  ttls = λ k. none;
  made = 0;
  counts = λ k f. pos 0;
}
