-- ===== src/Tests/Requests.antt =====
-- Requests to the fixture's desk.
use mathlib.Core.List.{Memᴰ}
use brokr.Common.{false, none, refl}
use brokr.Engine.Event.{process_event}
use brokr.Engine.AutoJoin.{dispatch_async}
use brokr.Web.{Dispatching, Request, Endpoint, Method, Route, routes, handler}
use brokr.Web.Safe.{IsSafeTarget, routes-IsSafeTarget}
use brokr.Tests.Fixture.{Database, desk}

abbrev pub service : Dispatching Database
service = record { dispatch = process_event desk; dispatch_async = dispatch_async }

abbrev pub paid : Request
paid = record {
  id = "a";
  child_id = "";
  event = "pay";
  async = false;
  name = none;
  definition = none;
}

abbrev read : Route
read = record {
  method = Method.get;
  path = "/brokr/workflows/:id";
  target = handler Endpoint.blueprint_read;
}

read_routed : Memᴰ read (routes "/brokr")
unfolding routes
read_routed = Memᴰ.tail (Memᴰ.head refl)

routes-IsSafeTarget_example : IsSafeTarget desk service read.target
routes-IsSafeTarget_example =
    routes-IsSafeTarget desk service (λ id x. refl) (λ id x. refl) "/brokr" read read_routed refl
