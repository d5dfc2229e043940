-- ===== src/Tests/Wire.antt =====
-- A wire format that reads what it writes: numbers, and lists with their length in front.
use smartmet_engine_sputnik.Prelude.{
  ℕ, zero, suc, ◌≡◌, refl, ap, ◌∙◌, Bool, true, false, List, [], ◌∷◌, Option, none, some, length, ℤ,
  pos, negsuc,
}
use smartmet_engine_sputnik.Text.{Str}
use smartmet_engine_sputnik.Messages.{
  BroadcastMessage, HostInfo, Service, InfoQuery, MessageType, service_discovery_request,
  service_discovery_reply, service_discovery_beacon,
}

-- How a value is put in front of the rest of a datagram, and got from there.
record Format (A : Type 0) : Type 0 where
  put : A → Str → Str
  get : Str → A × Str
  reads_back : (a : A) (rest : Str) → get (put a rest) ≡ (a, rest)

get_number : Str → ℕ × Str
get_number [] = (0, [])
get_number (n ∷ rest) = (n, rest)

number : Format ℕ
unfolding get_number
number = record { put = λ n rest. n ∷ rest; get = get_number; reads_back = λ n rest. refl }

module _ {A B : Type 0} where
  -- Values that stand for others.
  stands_for : Format A → (f : A → B) (g : B → A) → ((b : B) → f (g b) ≡ b) → Format B
  stands_for c f g h = record {
    put = λ b rest. c.put (g b) rest;
    get = λ bytes. (f (c.get bytes).0, (c.get bytes).1);
    reads_back =
        λ b rest. ap (λ x. (f x.0, x.1)) (c.reads_back (g b) rest) ∙ ap (λ y. (y, rest)) (h b);
  }

  both : Format A → Format B → Format (A × B)
  both c d = record {
    put = λ x rest. c.put x.0 (d.put x.1 rest);
    get = λ bytes. (((c.get bytes).0, (d.get (c.get bytes).1).0), (d.get (c.get bytes).1).1);
    reads_back = λ x rest.
        ap (λ y. ((y.0, (d.get y.1).0), (d.get y.1).1)) (c.reads_back x.0 (d.put x.1 rest))
        ∙ ap (λ y. ((x.0, y.0), y.1)) (d.reads_back x.1 rest);
  }

module _ {A : Type 0} (c : Format A) where
  put_all : List A → Str → Str
  put_all [] rest = rest
  put_all (x ∷ xs) rest = c.put x (put_all xs rest)

  get_all : ℕ → Str → List A × Str
  get_all zero bytes = ([], bytes)
  get_all (suc n) bytes =
      let later = get_all n (c.get bytes).1 in ((c.get bytes).0 ∷ later.0, later.1)

  get_all-put_all : (xs : List A) (rest : Str) → get_all (length xs) (put_all xs rest) ≡ (xs, rest)
  unfolding get_all put_all
  get_all-put_all [] rest = refl
  get_all-put_all (x ∷ xs) rest =
      ap (λ y. (y.0 ∷ (get_all (length xs) y.1).0, (get_all (length xs) y.1).1))
        (c.reads_back x (put_all xs rest))
      ∙ ap (λ y. (x ∷ y.0, y.1)) (get_all-put_all xs rest)

  list : Format (List A)
  unfolding put_all get_all get_number
  list = record {
    put = λ xs rest. length xs ∷ put_all xs rest;
    get = λ bytes. get_all (get_number bytes).0 (get_number bytes).1;
    reads_back = get_all-put_all;
  }

  to_list : Option A → List A
  to_list none = []
  to_list (some x) = x ∷ []

  to_option : List A → Option A
  to_option [] = none
  to_option (x ∷ xs) = some x

  to_option-to_list : (o : Option A) → to_option (to_list o) ≡ o
  unfolding to_option to_list
  to_option-to_list none = refl
  to_option-to_list (some x) = refl

option : {A : Type 0} → Format A → Format (Option A)
option c = stands_for (list c) (to_option c) (to_list c) (to_option-to_list c)

to_bool : ℕ → Bool
to_bool zero = false
to_bool (suc n) = true

of_bool : Bool → ℕ
of_bool false = 0
of_bool true = 1

bool : Format Bool
unfolding to_bool of_bool
bool =
    stands_for number to_bool of_bool
      (λ b. elim b as (λ k. to_bool (of_bool k) ≡ k) [ true ↦ refl | false ↦ refl ])

to_int : ℕ × ℕ → ℤ
to_int (zero, n) = pos n
to_int (suc m, n) = negsuc n

of_int : ℤ → ℕ × ℕ
of_int (pos n) = (0, n)
of_int (negsuc n) = (1, n)

int : Format ℤ
unfolding to_int of_int
int =
    stands_for (both number number) to_int of_int
      (λ b. elim b as (λ k. to_int (of_int k) ≡ k) [ pos n ↦ refl | negsuc n ↦ refl ])

to_type : ℕ → MessageType
to_type zero = service_discovery_request
to_type (suc zero) = service_discovery_reply
to_type (suc (suc n)) = service_discovery_beacon

of_type : MessageType → ℕ
of_type service_discovery_request = 0
of_type service_discovery_reply = 1
of_type service_discovery_beacon = 2

type : Format MessageType
unfolding to_type of_type
type = stands_for number to_type of_type (λ b. elim b as (λ k. to_type (of_type k) ≡ k) [
  | service_discovery_request ↦ refl
  | service_discovery_reply ↦ refl
  | service_discovery_beacon ↦ refl
])

text : Format Str
text = list number

host_info : Format (HostInfo ℕ)
host_info =
    stands_for (both text (both int (both text (both number (option int)))))
      (λ (ip, (port, (comment, (load, throttle)))). record {
        ip = ip;
        port = port;
        comment = comment;
        load = load;
        throttle = throttle;
      })
      (λ x. (x.ip, (x.port, (x.comment, (x.load, x.throttle))))) (λ x. refl)

service : Format Service
service =
    stands_for (both text (both int (both bool (option bool))))
      (λ (uri, (last_update, (allow_cache, is_prefix))). record {
        uri = uri;
        last_update = last_update;
        allow_cache = allow_cache;
        is_prefix = is_prefix;
      })
      (λ x. (x.uri, (x.last_update, (x.allow_cache, x.is_prefix)))) (λ x. refl)

query : Format InfoQuery
query =
    stands_for (both text int)
      (λ (name, last_update). record { name = name; last_update = last_update })
      (λ x. (x.name, x.last_update)) (λ x. refl)

message : Format (BroadcastMessage ℕ)
message =
    stands_for
      (both text
        (both type (both int (both (option host_info) (both (list service) (list query))))))
      (λ (name, (message_type, (seqnum, (host, (services, info_queries))))). record {
        name = name;
        message_type = message_type;
        seqnum = seqnum;
        host = host;
        services = services;
        info_queries = info_queries;
      })
      (λ x. (x.name, (x.message_type, (x.seqnum, (x.host, (x.services, x.info_queries))))))
      (λ x. refl)

unfoldable pub write_message : BroadcastMessage ℕ → Str
unfolding message query service host_info text type of_type int of_int bool of_bool option to_list
    list put_all both stands_for number get_all get_number get_all-put_all to_option
    to_option-to_list to_type to_int to_bool
write_message m = message.put m []

pub read_message : Str → BroadcastMessage ℕ
read_message bytes = (message.get bytes).0

pub read_message-write_message : (m : BroadcastMessage ℕ) → read_message (write_message m) ≡ m
unfolding read_message write_message
read_message-write_message m = ap (λ x. x.0) (message.reads_back m [])
