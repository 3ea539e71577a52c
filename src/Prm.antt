-- ===== src/Prm.antt =====
-- The platform resource manager's side: prm/ControlPlane.hh, prm/CPConnector.cc, prm/CPAdaptor.cc.
pub mod Address
pub mod ControlPlane
pub mod Rows
pub mod Tables
pub mod Connector
pub mod Protocol
pub mod ReadBack
pub mod Adaptor
