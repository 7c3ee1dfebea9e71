-- ===== src/Devices/Tests.antt =====
-- The theorems on the queue, at a disk with three requests.
use light_os.Base.{ℕ, ◌≡◌, refl, true, false, none, List, [], ◌∷◌}
use light_os.Devices.{Request, Device, neighbours, request_nextreq}
use light_os.Devices.Elevator.{}

abbrev request : (idx task : ℕ) → Request
request idx task = record { dev = 1; idx = idx; count = 2; write = false; task = task }

abbrev queue : List Request
queue = request 10 1 ∷ request 20 2 ∷ request 30 3 ∷ []

-- a disk whose only request ends
abbrev disk : Device
disk = record {
  kind = 2;
  subtype = 5;
  dev = 1;
  parent = 0;
  ptr = 0;
  up = true;
  request_list = request 10 1 ∷ [];
}

disk_done : (request_nextreq disk 1).0 ≡ none
unfolding request_nextreq neighbours
disk_done = refl

abbrev nobody : List Request
nobody = []
